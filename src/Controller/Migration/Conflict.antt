-- ===== src/Controller/Migration/Conflict.antt =====
-- What the status update leaves behind when another writer was faster.
use schemahero.Base.{◌≡◌, refl}
use schemahero.Base.Text.Number.{pos}
use schemahero.Base.Result.{ok, err, conflict}
use schemahero.Schema.Migration.{Migration}
use schemahero.Mysql.Deploy.Execute.{done}
use schemahero.Controller.Migration.{
  Cluster, is_conflict, mark_executed, mark_time, update_again, record_execution,
}
use schemahero.Controller.Migration.Once.{Stores}

-- If the first status update is refused with a conflict and the retry is accepted, then the run
-- succeeds and the object that is stored has the time of execution, but the phase that the other
-- writer left.
pub record_execution-conflict :
    {S Database Connection : Type 0} (c : Cluster S Database Connection) (laws : Stores c)
    (m u : Migration) (s s' : S)
    → c.update_migration (mark_executed (c.now s) m) s ≡ err conflict
    → c.get_migration m.namespace m.name s ≡ ok u
    → c.update_migration (mark_time (c.now s) u) s ≡ ok s'
    → (record_execution c m s ≡ done s')
      × (w : Migration) × (c.get_migration u.namespace u.name s' ≡ ok w)
      × (w.status.executed_at ≡ pos (c.now s))
      × (w.status.phase ≡ u.status.phase)
unfolding record_execution update_again is_conflict
record_execution-conflict c laws m u s s' refused read written =
    let (v, stored) = laws.updated (mark_time (c.now s) u) s s' written in
    (rw (refused, read, written) refl, _, stored, refl, refl)
