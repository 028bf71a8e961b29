-- ===== src/Server/Puts.antt =====
-- Puts and gets of bootcfg/server/server.go.
use coreos_baremetal.Prelude.{◌≡◌, refl, inl, inr, Option, none, some, Option-cases, arith}
use coreos_baremetal.Prelude.Text.{Text}
use coreos_baremetal.Golang.Errors.{Error, ok, err, >>=-ok}
use coreos_baremetal.Golang.FileSystem.{FileSystem, IsLawful}
use coreos_baremetal.Storagepb.Json.{Group, Profile, RichGroup, Json}
use coreos_baremetal.Storagepb.Group.{assert_valid, parse_group, to_rich_group}
use coreos_baremetal.Storagepb.Profile.{assert_valid_profile}
use coreos_baremetal.Storage.Store.{Store}
use coreos_baremetal.Storage.FileStore.{file_store}
use coreos_baremetal.Storage.FileStore.Groups.{group_get-group_put}
use coreos_baremetal.Server.{Sorts, answer, group_put, group_get, profile_put, ignition_put}

module _ (store : Store) (sorts : Sorts) (s : store.State) where
  answer-eq-ok :
      {S A : Type 0} (a b : A) (m : S × Option Error)
      → (answer a m).1 ≡ ok b
      → (m.1 ≡ none) × (a ≡ b) × ((answer a m).0 ≡ m.0)
  answer-eq-ok a b (t, none) h = (refl, cc, refl)
  answer-eq-ok a b (t, some e) h = cc

  -- A put that succeeds was given a valid group, which the store has accepted, and answers it.
  pub group_put-eq-ok :
      (g h : Group)
      → (group_put store sorts s g).1 ≡ ok h
      → (g ≡ h)
        × (assert_valid g ≡ none)
        × ((store.group_put s g).1 ≡ none)
        × ((group_put store sorts s g).0 ≡ (store.group_put s g).0)
  unfolding group_put
  group_put-eq-ok g h e = elim (Option-cases (assert_valid g)) [
    | inr (x, q) ↦ cc (rw (q, group_put) at e)
    | inl q ↦
        let (stored, same, state) =
          answer-eq-ok g h (store.group_put s g) (rw (q, group_put) at e) in
        (same, q, stored, rw (q, group_put) state)
  ]

  -- The same for a profile.
  pub profile_put-eq-ok :
      (p q : Profile)
      → (profile_put store sorts s p).1 ≡ ok q
      → (p ≡ q)
        × (assert_valid_profile p ≡ none)
        × ((store.profile_put s p).1 ≡ none)
        × ((profile_put store sorts s p).0 ≡ (store.profile_put s p).0)
  unfolding profile_put
  profile_put-eq-ok p q e = elim (Option-cases (assert_valid_profile p)) [
    | inr (x, h) ↦ cc (rw (h, profile_put) at e)
    | inl h ↦
        let (stored, same, state) =
          answer-eq-ok p q (store.profile_put s p) (rw (h, profile_put) at e) in
        (same, h, stored, rw (h, profile_put) state)
  ]

  -- The same for an Ignition template.
  pub ignition_put-eq-ok :
      (name config stored : Text)
      → (ignition_put store sorts s name config).1 ≡ ok stored
      → ((store.ignition_put s name config).1 ≡ none)
        × ((ignition_put store sorts s name config).0 ≡ (store.ignition_put s name config).0)
  unfolding ignition_put
  ignition_put-eq-ok name config stored e =
      let (kept, same, state) = answer-eq-ok config stored (store.ignition_put s name config) e in
      (kept, state)

  -- An invalid group or profile is refused with its validation error, and the store is not touched.
  pub puts_refused :
      (g : Group) (p : Profile) (e e' : Error)
      → assert_valid g ≡ some e
      → assert_valid_profile p ≡ some e'
      → (group_put store sorts s g ≡ (s, err e)) × (profile_put store sorts s p ≡ (s, err e'))
  unfolding group_put profile_put
  puts_refused g p e e' h k = ground arith

module _ (F : FileSystem) (L : IsLawful F) (json : Json) (root : Text) (sorts : Sorts) where
  abbrev files : Store
  files = file_store F json root

  -- Over the file store and a lawful file system, a group that was put through the server without
  -- an error is got back through the server as the parse of what the encoder wrote for it.
  pub server_put_get :
      (s : F.State) (g h : Group)
      → (group_put files sorts s g).1 ≡ ok h
      → (rich : RichGroup) × (data' : Text) × (to_rich_group json g ≡ ok rich)
        × (json.marshal_group rich ≡ ok data')
        × (group_get files sorts (group_put files sorts s g).0 g.id ≡ parse_group json data')
  unfolding group_get
  server_put_get s g h e =
      let (same, valid, stored, state) = group_put-eq-ok files sorts s g h e in
      let (rich, data', p, q, r) = group_get-group_put F L json root s g stored in
      (rich, data', p, q, rw (state, r) (>>=-ok (parse_group json data')))
