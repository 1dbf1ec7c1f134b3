-- ===== src/Registry.antt =====
-- The lifecycle of the loaded model records (ml-engine/api/registry.py: install, remove and pin of
-- ModelRegistry). A record is the number of its object; `cleaned` lists the records that were handed to
-- the cleanup, in that order. The calls under the registry's lock are atomic steps; the cleanup
-- itself runs after the lock is released, on a record that no step can reach any more.
pub mod Lifecycle
pub mod Cleanup
use predictive_autoscaler.Prelude.{
  ℕ, ◌+◌, ◌-◌, String, Bool, true, false, ◌&&◌, ◌||◌, Option, none, some, List, [], ◌∷◌, ◌++◌, Dict,
  lookup, insert, erase, ◌==◌, nat_eq, string_eq, if◌then◌else◌, Result, ok, err, raise_if, ◌>>=◌,
  ◌>>◌,
}

pub data RegistryError : Type 0 where
  already_installed : RegistryError

pub record Life : Type 0 where
  pub refs : ℕ
  pub installed : Bool
  pub retired : Bool

unfoldable pub new_life : Life
new_life = record { refs = 0; installed = false; retired = false }

pub record Registry : Type 0 where
  pub records : Dict String ℕ
  pub lives : ℕ → Life
  pub cleaned : List ℕ

unfoldable pub empty_registry : Registry
unfolding new_life
empty_registry = record { records = []; lives = λ r. new_life; cleaned = [] }

-- An assignment to the lifecycle of one record.
unfoldable pub set_life : ℕ → Life → (ℕ → Life) → ℕ → Life
set_life r l lives q = if q == r then l else lives q

-- `if dispose: self._cleanup(rec)`
unfoldable pub dispose : Bool → ℕ → Registry → Registry
dispose b r s = if b then record s { cleaned = s.cleaned ++ r ∷ [] } else s

-- `_retire` of the replaced or removed record, if there was one, and its cleanup if nobody holds it.
unfoldable pub retire : Option ℕ → Registry → Registry
retire none s = s
retire (some old) s =
    dispose ((s.lives old).refs == 0) old
      (record s { lives = set_life old (record (s.lives old) { retired = true }) s.lives })

unfoldable pub remove : String → Registry → Registry
remove key s = retire (lookup key s.records) (record s { records = erase key s.records })

-- The entry of `pin`: the record that the block runs with.
unfoldable pub pin : String → Registry → Option ℕ × Registry
pin key s = elim (lookup key s.records) [
  | none ↦ (none, s)
  | some r ↦ (
    some r,
    record s { lives = set_life r (record (s.lives r) { refs = (s.lives r).refs + 1 }) s.lives },
  )
]

-- The exit of `pin` for a record that it gave.
unfoldable pub unpin : ℕ → Registry → Registry
unpin r s =
    let l = record (s.lives r) { refs = (s.lives r).refs - 1 } in
    dispose (l.retired && l.refs == 0) r (record s { lives = set_life r l s.lives })

-- The key of a record is fixed when it is loaded.
module _ (key_of : ℕ → String) where
  unfoldable pub install : ℕ → Registry → Result RegistryError Registry
  install r s = do
    raise_if ((s.lives r).retired || (s.lives r).installed) already_installed
    ok (
        retire (lookup (key_of r) s.records) (record s {
          records = insert (key_of r) r s.records;
          lives = set_life r (record (s.lives r) { installed = true }) s.lives;
        }))
