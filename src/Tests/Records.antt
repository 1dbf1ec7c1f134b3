-- ===== src/Tests/Records.antt =====
-- A model record that is replaced while a pin holds it.
use predictive_autoscaler.Prelude.{
  ℕ, ◌≡◌, refl, String, [], ◌∷◌, lookup, ok, some, nat_eq, string_eq, Result, err,
}
use predictive_autoscaler.Registry.{
  Registry, RegistryError, empty_registry, set_life, dispose, retire, pin, unpin, install,
}
use predictive_autoscaler.Registry.Lifecycle.{IsLive}
use predictive_autoscaler.Registry.Cleanup.{
  Reached, started, installed, pinned, unpinned, Reached-IsLive,
}

abbrev same_key : ℕ → String
same_key r = "app"

abbrev replaced : Result RegistryError Registry → Registry
replaced (ok s) = s
replaced (err e) = empty_registry

abbrev first_model : Registry
first_model = replaced (install same_key 1 empty_registry)

first_installed : install same_key 1 empty_registry ≡ ok first_model
unfolding install retire empty_registry
first_installed = refl

first_found : lookup "app" first_model.records ≡ some 1
unfolding install retire empty_registry
first_found = refl

abbrev in_use : Registry
in_use = (pin "app" first_model).1

in_use-Reached : Reached same_key (1 ∷ []) in_use
in_use-Reached = pinned "app" 1 (installed 1 started first_installed) first_found

abbrev second_model : Registry
second_model = replaced (install same_key 2 in_use)

second_installed : install same_key 2 in_use ≡ ok second_model
unfolding install retire empty_registry pin set_life dispose
second_installed = refl

second-Reached : Reached same_key (1 ∷ []) second_model
second-Reached = installed 2 in_use-Reached second_installed

abbrev after_use : Registry
after_use = unpin 1 second_model

after_use-Reached : Reached same_key [] after_use
after_use-Reached = unpinned 1 second-Reached refl

Reached-IsLive_example : IsLive same_key [] after_use
Reached-IsLive_example = Reached-IsLive same_key [] after_use after_use-Reached
