-- ===== src/Schema/SeedData.antt =====
-- pkg/apis/schemas/v1alpha4/seed_data.go.
use schemahero.Base.{List, Option}
use schemahero.Base.Text.Number.{ℤ}
use schemahero.Base.Text.{Text}

pub record SeedDataValue : Type 0 where
  pub int : Option ℤ
  pub str : Option Text

pub record Column : Type 0 where
  pub column : Text
  pub value : SeedDataValue

pub record SeedDataRow : Type 0 where
  pub columns : List Column

pub record SeedData : Type 0 where
  pub rows : List SeedDataRow
