-- ===== src/Identity/Restart.antt =====
-- A node that is started again has the same identity: internal/identity/identity.go.
use token_go.Base.{
  ℕ, Bytes, true, false, Option, none, some, Result, ok, err, >>=-ok, ◌≡◌, refl, ap, subst, ◌∙◌,
  arith, Result-cases, Bool-cases, inl, inr,
}
use token_go.Net.{is_empty}
use token_go.Files.{Access, Files, Base64, Base64Laws, read_file, exists, read_file-write_file}
use token_go.Identity.{
  KeyLibrary, Laws, Identity, IdentityError, or_fail, generate, load, save, load_or_generate, saved,
  new_identity, identity_of,
}

pub or_fail-ok {ℓ} :
    {A : Type ℓ} (e : IdentityError) (o : Option A) (a : A) → or_fail e o ≡ ok a → o ≡ some a
or_fail-ok e none a h = cc
or_fail-ok e (some b) a h = cc

module _ {PrivKey PubKey : Type 0} (lib : KeyLibrary PrivKey PubKey) (laws : Laws lib)
    (b64 : Base64) (b64_laws : Base64Laws b64) (access : Access) where
  -- The parts of an identity belong together.
  abbrev pub IsCoherent : Identity PrivKey PubKey → Type 0
  IsCoherent id =
      (lib.get_public id.priv_key ≡ id.pub_key)
      × (lib.id_from_public_key id.pub_key ≡ some id.peer_id)

  identity_of-IsCoherent :
      (k : PrivKey) (p : PubKey) (id : Identity PrivKey PubKey)
      → lib.get_public k ≡ p
      → identity_of lib b64 access k p ≡ ok id
      → IsCoherent id
  identity_of-IsCoherent k p id e h =
      let (i, found, same) =
        >>=-ok (or_fail IdentityError.peer_id_failed (lib.id_from_public_key p)) _ h in
      ground (arith, or_fail-ok IdentityError.peer_id_failed (lib.id_from_public_key p) i found)

  pub generate-IsCoherent :
      (draw : ℕ) (id : Identity PrivKey PubKey)
      → generate lib b64 access draw ≡ ok id
      → IsCoherent id
  unfolding generate
  generate-IsCoherent draw id h =
      let ((k, p), drawn, rest) =
        >>=-ok (or_fail IdentityError.generate_failed (lib.generate_key draw)) _ h in
      identity_of-IsCoherent k p id (laws.generate_key_public draw k p (or_fail-ok _ _ _ drawn))
        rest

  -- What `Save` has written, `Load` reads.
  pub load-save :
      (id : Identity PrivKey PubKey) (path : Bytes) (files files' : Files)
      → IsCoherent id
      → access.can_read path ≡ true
      → save lib b64 access id path files ≡ ok files'
      → load lib b64 access path files' ≡ ok id
  unfolding load save
  load-save id path files files' c r s =
      let (key, m, w) =
        >>=-ok (or_fail IdentityError.marshal_failed (lib.marshal id.priv_key)) _ s in
      let (back, there) =
        read_file-write_file access path (b64.encode_to_string key) files files' r
          (or_fail-ok _ _ _ w) in
      rw
        (
          back,
          b64_laws.decode_string-encode_to_string key,
          laws.unmarshal-marshal id.priv_key key (or_fail-ok _ _ _ m),
          c.0,
          c.1,
        )
        refl

  saved_exists :
      (id : Identity PrivKey PubKey) (path : Bytes) (files files' : Files)
      → access.can_read path ≡ true
      → save lib b64 access id path files ≡ ok files'
      → exists path files' ≡ true
  unfolding save
  saved_exists id path files files' r s =
      let (key, m, w) =
        >>=-ok (or_fail IdentityError.marshal_failed (lib.marshal id.priv_key)) _ s in
      (read_file-write_file access path (b64.encode_to_string key) files files' r
        (or_fail-ok _ _ _ w)).1

  abbrev Outcome : Type 0
  Outcome = Files × Result IdentityError (Identity PrivKey PubKey)

  clash :
      (f g : Files) (e : IdentityError) (id : Identity PrivKey PubKey)
      → ¬ (◌≡◌ {A = Outcome} (f, err e) (g, ok id))
  clash f g e id h = cc

  ok_inj :
      (a b : Identity PrivKey PubKey)
      → ◌≡◌ {A = Result IdentityError (Identity PrivKey PubKey)} (ok a) (ok b)
      → a ≡ b
  ok_inj a b h = cc

  -- The file keeps the identity.
  abbrev pub Kept : Bytes → Files → Identity PrivKey PubKey → Type 0
  Kept path files id =
      (exists path files ≡ true) × (load lib b64 access path files ≡ ok id) × IsCoherent id

  load-IsCoherent :
      (path : Bytes) (files : Files) (id : Identity PrivKey PubKey)
      → load lib b64 access path files ≡ ok id
      → IsCoherent id
  unfolding load
  load-IsCoherent path files id h =
      let (content, read, h₁) =
        >>=-ok (or_fail IdentityError.read_failed (read_file access path files)) _ h in
      let (key, decoded, h₂) =
        >>=-ok (or_fail IdentityError.decode_failed (b64.decode_string content)) _ h₁ in
      let (k, parsed, h₃) =
        >>=-ok (or_fail IdentityError.unmarshal_failed (lib.unmarshal key)) _ h₂ in
      identity_of-IsCoherent k (lib.get_public k) id refl h₃

  saved-Kept :
      (id : Identity PrivKey PubKey) (path : Bytes) (files files' : Files)
      (id' : Identity PrivKey PubKey)
      → access.can_read path ≡ true
      → IsCoherent id
      → saved lib b64 access id path files ≡ (files', ok id')
      → Kept path files' id'
  unfolding saved
  saved-Kept id path files files' id' r c h =
      elim (Result-cases (save lib b64 access id path files)) [
        | inr (e, failed) ↦ absurd (clash _ _ _ _ (rw (failed, saved) at h))
        | inl (files'', s) ↦
            let wrote : save lib b64 access id path files ≡ ok files' =
              s ∙ ap ok (ap (λ x. x.0) (rw (s, saved) at h)) in
            let same : id ≡ id' = ok_inj _ _ (ap (λ x. x.1) (rw (s, saved) at h)) in
            rw (← same) (
              saved_exists id path files files' r wrote,
              load-save id path files files' c r wrote,
              c,
            )
      ]

  new_identity-Kept :
      (draw : ℕ) (path : Bytes) (files files' : Files) (id : Identity PrivKey PubKey)
      → is_empty path ≡ false
      → access.can_read path ≡ true
      → new_identity lib b64 access draw path files ≡ (files', ok id)
      → Kept path files' id
  unfolding new_identity
  new_identity-Kept draw path files files' id named r h =
      elim (Result-cases (generate lib b64 access draw)) [
        | inr (e, failed) ↦ absurd (clash _ _ _ _ (rw (failed, new_identity) at h))
        | inl (id', g) ↦
            saved-Kept id' path files files' id r (generate-IsCoherent draw id' g)
              (rw (g, named, new_identity) at h)
      ]

  -- A path that is not empty and can be read keeps what `LoadOrGenerate` gives.
  pub load_or_generate-Kept :
      (draw : ℕ) (path : Bytes) (files files' : Files) (id : Identity PrivKey PubKey)
      → is_empty path ≡ false
      → access.can_read path ≡ true
      → load_or_generate lib b64 access draw path files ≡ (files', ok id)
      → Kept path files' id
  unfolding load_or_generate
  load_or_generate-Kept draw path files files' id named r h =
      elim (Bool-cases (exists path files)) [
        | inr not_there ↦
            new_identity-Kept draw path files files' id named r
              (rw (named, not_there, load_or_generate) at h)
        | inl there ↦
            let e : (files, load lib b64 access path files) ≡ (files', ok id) =
              rw (named, there, load_or_generate) at h in
            let loaded : load lib b64 access path files ≡ ok id = ap (λ z. z.1) e in
            subst (λ f. Kept path f id) (ap (λ z. z.0) e)
              (there, loaded, load-IsCoherent path files id loaded)
      ]

  pub load_or_generate_finds :
      (draw : ℕ) (path : Bytes) (files : Files) (id : Identity PrivKey PubKey)
      → is_empty path ≡ false
      → Kept path files id
      → load_or_generate lib b64 access draw path files ≡ (files, ok id)
  unfolding load_or_generate
  load_or_generate_finds draw path files id named (there, loaded, c) =
      rw (named, there, load_or_generate) (ap (λ l. (files, l)) loaded)

  -- Other files do not matter.
  pub Kept-other :
      (path : Bytes) (files files' : Files) (id : Identity PrivKey PubKey)
      → read_file access path files' ≡ read_file access path files
      → exists path files' ≡ exists path files
      → Kept path files id
      → Kept path files' id
  unfolding load
  Kept-other path files files' id r e (there, loaded, c) = (e ∙ there, rw r loaded, c)

  -- If the path of the key file is not empty and can be read, and `LoadOrGenerate` gives an identity,
  -- then every later call, with the files it left and whatever randomness, gives the same identity
  -- and changes no file.
  pub load_or_generate_again :
      (draw draw' : ℕ) (path : Bytes) (files files' : Files) (id : Identity PrivKey PubKey)
      → is_empty path ≡ false
      → access.can_read path ≡ true
      → load_or_generate lib b64 access draw path files ≡ (files', ok id)
      → load_or_generate lib b64 access draw' path files' ≡ (files', ok id)
  load_or_generate_again draw draw' path files files' id named r h =
      load_or_generate_finds draw' path files' id named
        (load_or_generate-Kept draw path files files' id named r h)
