-- ===== src/Store/Sound.antt =====
-- The invariant of the store's namespace: a label has one holder, and what is live or exposed is
-- the holder of its label. Environment ids and exposure labels share the table of leases, as the
-- docstrings of `reserve` and of the model `NamespaceLease` say.

pub mod Reserving
pub mod Methods
pub mod Teardown
pub mod Reach
use cawl.Prelude.{lookup, Text, List, All, ◌≡◌, some, false, ◌<◌}
use cawl.Store.Tables.{Store, ExposureRow, Row, find_row}
use cawl.Models.{dead}

abbrev pub Labelled : List (Text × Text) → List ExposureRow → Type 0
Labelled leases es = All (λ (e : ExposureRow). lookup e.name leases ≡ some e.environment) es

pub record IsSound (s : Store) : Type 0 where
  -- a live environment holds its own id
  pub homed :
      (id : Text) (r : Row)
      → find_row id s.rows ≡ some r
      → dead r.status ≡ false
      → lookup id s.leases ≡ some id
  -- an exposed label is held by the environment that exposes it
  pub labelled : Labelled s.leases s.exposures
  -- the fencing values in use are older than the next one
  pub below : (id : Text) (r : Row) → find_row id s.rows ≡ some r → r.generation < s.next_uuid
