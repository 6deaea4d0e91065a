-- ===== src/Client/Session/Starts.antt =====
-- packages/rn/src/otaClient.ts: a device that has enrolled starts without another enrolment.
use dash_ota.Base.{
  ◌≡◌, refl, arith, ap, ◌∙◌, subst, Bool, true, false, Option, none, some, Text, eq_iff, is_empty,
  if_both,
}
use dash_ota.Client.Session.{
  Keystore, Device, Storage, Response, ok, not_ok, Result, returned, thrown, Server, same_text,
  marker, keep_marker, name_result, enroll_body, get_install_id, enroll_if_needed,
  create_client_context,
}

-- The storage holds an install id.
abbrev IsNamedAs : Storage → Text → Type 0
IsNamedAs storage id = (storage.install_id ≡ some id) × (is_empty id ≡ false)

get_install_id-IsNamedAs :
    (storage : Storage) (fresh : Text)
    → is_empty fresh ≡ false
    → IsNamedAs (get_install_id storage fresh).0 (get_install_id storage fresh).1
unfolding get_install_id
get_install_id-IsNamedAs storage fresh given = ground arith

get_install_id-known :
    (storage : Storage) (id fresh : Text)
    → IsNamedAs storage id
    → get_install_id storage fresh ≡ (storage, id)
unfolding get_install_id
get_install_id-known storage id fresh (held, given) = ground arith

same_text-some : (kept : Option Text) (t : Text) → same_text kept t ≡ true → kept ≡ some t
same_text-some none t e = absurd (ground arith)
same_text-some (some k) t e = ground (arith, eq_iff k t)

some-same_text : (kept : Option Text) (t : Text) → kept ≡ some t → same_text kept t ≡ true
some-same_text none t e = absurd (ground arith)
some-same_text (some k) t e = ground (arith, eq_iff k t)

module _ {ℓ} {W : Type ℓ} {A : Type 0} (keystore : Keystore) (server : Server W A)
    (device : Device) where
  -- An enrolment that succeeds leaves the marker, and the install id as it was.
  keep_marker-kept :
      (storage : Storage) (mark : Text) (answer : W × Response Bool) (b : Bool)
      → (keep_marker keystore server device storage mark answer).1 ≡ returned b
      → ((keep_marker keystore server device storage mark answer).0.0.enrolled ≡ some mark)
        × ((keep_marker keystore server device storage mark answer).0.0.install_id
            ≡ storage.install_id)
  keep_marker-kept storage mark (w, ok a) b e = (refl, refl)
  keep_marker-kept storage mark (w, not_ok status code) b e = absurd (ground arith)

  enroll_if_needed-kept :
      (id : Text) (storage : Storage) (w : W) (b : Bool)
      → (enroll_if_needed keystore server device id false storage w).1 ≡ returned b
      → ((enroll_if_needed keystore server device id false storage w).0.0.enrolled
          ≡ some (marker keystore id device.public_key))
        × ((enroll_if_needed keystore server device id false storage w).0.0.install_id
            ≡ storage.install_id)
  unfolding enroll_if_needed
  enroll_if_needed-kept id storage w b =
      let mark = marker keystore id device.public_key in
      if_both
        (λ (r : (Storage × W) × Result Bool).
          r.1 ≡ returned b → (r.0.0.enrolled ≡ some mark) × (r.0.0.install_id ≡ storage.install_id))
        (same_text storage.enrolled mark)
        (λ same. λ e. (same_text-some storage.enrolled mark same, refl))
        (λ other. λ e. keep_marker-kept storage mark (server.enroll w (enroll_body device id)) b e)

  enroll_if_needed-skipped :
      (id : Text) (storage : Storage) (w : W)
      → storage.enrolled ≡ some (marker keystore id device.public_key)
      → enroll_if_needed keystore server device id false storage w ≡ ((storage, w), returned true)
  unfolding enroll_if_needed
  enroll_if_needed-skipped id storage w marked =
      rw (some-same_text storage.enrolled (marker keystore id device.public_key) marked) refl

  name_result-returned :
      (id : Text) (r : (Storage × W) × Result Bool) (i : Text)
      → (name_result keystore server device id r).1 ≡ returned i
      → (b : Bool) × (r.1 ≡ returned b)
        × (id ≡ i)
        × ((name_result keystore server device id r).0 ≡ r.0)
  name_result-returned id (sw, returned b) i e = (b, refl, ground arith, refl)
  name_result-returned id (sw, thrown f) i e = absurd (ground arith)

  create_client_context-known :
      (other id : Text) (storage : Storage) (w : W)
      → IsNamedAs storage id
      → storage.enrolled ≡ some (marker keystore id device.public_key)
      → create_client_context keystore server device other storage w ≡ ((storage, w), returned id)
  unfolding create_client_context
  create_client_context-known other id storage w named marked =
      rw (get_install_id-known storage id other named, enroll_if_needed-skipped id storage w marked)
        refl

  -- Take any server. When the client context was created, with install id `id`, a second creation, whatever
  -- id it would make up, returns the same id, changes neither storage nor server, and so sends no enrolment.
  pub create_client_context-again :
      (fresh other id : Text) (storage : Storage) (w : W)
      → is_empty fresh ≡ false
      → (create_client_context keystore server device fresh storage w).1 ≡ returned id
      → create_client_context keystore server device other
          (create_client_context keystore server device fresh storage w).0.0
          (create_client_context keystore server device fresh storage w).0.1
        ≡ ((create_client_context keystore server device fresh storage w).0, returned id)
  unfolding create_client_context
  create_client_context-again fresh other id storage w given e =
      let start = get_install_id storage fresh in
      let named = get_install_id-IsNamedAs storage fresh given in
      let (b, eb, same, ends) =
        name_result-returned start.1
          (enroll_if_needed keystore server device start.1 false start.0 w) id e in
      let (marked, kept) = enroll_if_needed-kept start.1 start.0 w b eb in
      subst
        (λ i.
          create_client_context keystore server device other
            (create_client_context keystore server device fresh storage w).0.0
            (create_client_context keystore server device fresh storage w).0.1
          ≡ ((create_client_context keystore server device fresh storage w).0, returned i))
        same
        (create_client_context-known other start.1 _ _
          (ap (λ (sw : Storage × W). sw.0.install_id) ends ∙ kept ∙ named.0, named.1)
          (ap (λ (sw : Storage × W). sw.0.enrolled) ends ∙ marked))
