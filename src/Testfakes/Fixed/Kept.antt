-- ===== src/Testfakes/Fixed/Kept.antt =====
-- The store of bootcfg/storage/testfakes/fixed_store.go keeps what was put.
use mathlib.Core.List.{Mem, mem-cons_self, mem-cons_of_mem}
use coreos_baremetal.Prelude.{◌≡◌, refl, map, [], ◌∷◌, Bool-cases, inl, inr}
use coreos_baremetal.Prelude.Text.{Text, ==_refl, ◌==◌, text}
use coreos_baremetal.Golang.Dict.{Dict, insert}
use coreos_baremetal.Storage.Store.Keeping.{IsKeeping}
use coreos_baremetal.Testfakes.Fixed.{
  fixed_store, find-insert, group_put, group_list, profile_put, profile_get, FixedStore, Profile,
  ok,
}

values-insert {ℓ} :
    {A : Type ℓ} (key : Text) (a : A) (m : Dict A) → Mem a (map (λ e. e.1) (insert key a m))
unfolding insert
values-insert key a [] = mem-cons_self
values-insert key a ((k, old) ∷ m) = elim (Bool-cases (k == key)) [
  | inl q ↦ rw (insert, q) mem-cons_self
  | inr q ↦ rw (insert, q) (mem-cons_of_mem _ (values-insert key a m))
]

get_put : (s : FixedStore) (p : Profile) → profile_get (profile_put s p).0 p.id ≡ ok p
unfolding profile_get profile_put
get_put s p = rw (find-insert s.profiles p.id p.id (text "Profile not found") p, ==_refl p.id)

pub fixed_store-IsKeeping : IsKeeping fixed_store (λ g. Unit) (λ p. Unit)
unfolding group_list group_put profile_put profile_get
fixed_store-IsKeeping = record {
  profile_get-put = λ s p fits valid h. get_put s p;
  profile_get-group_put = λ s g p fits fits' h. h;
  group_list-put = λ s g fits h. (_, refl, values-insert g.id g s.groups);
}
