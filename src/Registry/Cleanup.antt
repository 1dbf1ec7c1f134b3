-- ===== src/Registry/Cleanup.antt =====
-- The runs of the model registry: when a record is handed to the cleanup.
use predictive_autoscaler.Prelude.{
  ℕ, ◌≡◌, refl, String, true, false, some, List, [], ◌∷◌, any, lookup, ◌==◌, nat_eq, string_eq,
  arith, ok,
}
use predictive_autoscaler.Registry.{Registry, empty_registry, remove, pin, unpin, install}
use predictive_autoscaler.Registry.Lifecycle.{
  IsLive, release, install-IsLive, remove-IsLive, pin-IsLive, unpin-IsLive,
}

module _ (key_of : ℕ → String) where
  -- The registries that calls can make from an empty one, in any order, with the records that running
  -- pins hold.
  pub data Reached : List ℕ → Registry → Type 0 where
    started : Reached [] empty_registry
    installed :
        (r : ℕ) {held : List ℕ} {s s' : Registry}
        → Reached held s
        → install key_of r s ≡ ok s'
        → Reached held s'
    removed :
        (key : String) {held : List ℕ} {s : Registry} → Reached held s → Reached held (remove key s)
    pinned :
        (key : String) (r : ℕ) {held : List ℕ} {s : Registry}
        → Reached held s
        → lookup key s.records ≡ some r
        → Reached (r ∷ held) (pin key s).1
    unpinned :
        (r : ℕ) {held : List ℕ} {s : Registry}
        → Reached held s
        → any (λ h. h == r) held ≡ true
        → Reached (release key_of r held) (unpin r s)

  installable :
      (r : ℕ) (s s' : Registry)
      → install key_of r s ≡ ok s'
      → ((s.lives r).installed ≡ false) × ((s.lives r).retired ≡ false)
  unfolding install
  installable r s s' e = (ground (arith, e), ground (arith, e))

  empty-IsLive : IsLive key_of [] empty_registry
  unfolding empty_registry
  empty-IsLive = record { refs = λ q. refl; cleaned = λ q. refl; present = λ k r e. cc }

  -- In every registry that calls can make, in any order: the references of a record are the pins that
  -- hold it; a record was handed to the cleanup exactly once if it is retired and no pin holds it, and
  -- never otherwise; and the table holds, under its own key, only installed records that are not
  -- retired.
  pub Reached-IsLive : (held : List ℕ) (s : Registry) → Reached held s → IsLive key_of held s
  Reached-IsLive held s started = empty-IsLive
  Reached-IsLive held s (installed r {s = t} h e) =
      let (fresh, active) = installable r t s e in
      install-IsLive key_of r held t fresh active s e (Reached-IsLive held t h)
  Reached-IsLive held s (removed key {s = t} h) =
      remove-IsLive key_of key held t (Reached-IsLive held t h)
  Reached-IsLive held s (pinned key r {held = rest} {s = t} h e) =
      pin-IsLive key_of key r rest t e (Reached-IsLive rest t h)
  Reached-IsLive held s (unpinned r {held = before} {s = t} h e) =
      unpin-IsLive key_of r before t e (Reached-IsLive before t h)
