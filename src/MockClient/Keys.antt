-- ===== src/MockClient/Keys.antt =====
-- mock-client/main.go: the key of the mock client from one run to the next.
use golem_harness.Base.{
  Str, ◌≡◌, refl, sym, ap, ◌∙◌, ◌⊎◌, false, some, length, arith, Bool-cases, Option-cases, inl, inr,
}
use golem_harness.Errors.{Result, ok}
use golem_harness.Platform.{Platform, private_key_size}
use golem_harness.MockClient.{
  KeyFiles, Contents, contents, not_exist, unreadable, parse_key, create_key,
  load_or_create_keypair,
}

-- What package os, crypto/ed25519 and encoding/base64 document.
pub record IsLawfulFiles (F : KeyFiles) : Type 1 where
  pub HasDir : Str → F.State → Type 0
  pub mkdir_makes :
      (dir : Str) (s : F.State) → (F.mkdir_all dir s).0 ≡ false → HasDir dir (F.mkdir_all dir s).1
  pub mkdir_again : (dir : Str) (s : F.State) → HasDir dir s → F.mkdir_all dir s ≡ (false, s)
  pub write_keeps :
      (dir path data' : Str) (s : F.State) → HasDir dir s → HasDir dir (F.write_file path data' s).1
  pub generate_keeps : (dir : Str) (s : F.State) → HasDir dir s → HasDir dir (F.generate_key s).1
  pub read-write :
      (path data' : Str) (s : F.State)
      → (F.write_file path data' s).0 ≡ false
      → F.read_file path (F.write_file path data' s).1 ≡ contents data'
  pub decode-encode : (raw : Str) → F.decode_base64 (F.encode_base64 raw) ≡ some raw
  pub length-generate :
      (s : F.State) (key : Str) → (F.generate_key s).0 ≡ some key → length key ≡ private_key_size

Contents-cases :
    (x : Contents) → ((data' : Str) × (x ≡ contents data')) ⊎ ((x ≡ not_exist) ⊎ (x ≡ unreadable))
Contents-cases (contents data') = inl (data', refl)
Contents-cases not_exist = inr (inl refl)
Contents-cases unreadable = inr (inr refl)

module _ (P : Platform) (F : KeyFiles) (L : IsLawfulFiles F) (dir : Str) where
  abbrev path : Str
  path = F.private_path dir

  -- The directory is there, and its file holds this key.
  record IsStored (public_key private_key : Str) (s : F.State) : Type 0 where
    has_dir : L.HasDir dir s
    data' : Str
    read : F.read_file path s ≡ contents data'
    parsed : parse_key P F data' ≡ ok (public_key, private_key)

  parse_key-encode :
      (key : Str)
      → length key ≡ private_key_size
      → parse_key P F (F.encode_base64 key) ≡ ok (P.public key, key)
  unfolding parse_key
  parse_key-encode key size = ground (arith, L.decode-encode key)

  parse_key-ok :
      (data' public_key private_key : Str)
      → parse_key P F data' ≡ ok (public_key, private_key)
      → (public_key ≡ P.public private_key) × (length private_key ≡ private_key_size)
  unfolding parse_key
  parse_key-ok data' public_key private_key h = elim (Option-cases (F.decode_base64 data')) [
    | inl e ↦ absurd (ground arith)
    | inr (raw, e) ↦
        let same : ◌≡◌ {A = Str} raw private_key = ground arith in
        let public_same : ◌≡◌ {A = Str} (P.public raw) public_key = ground arith in
        (sym public_same ∙ ap P.public same, ap length (sym same) ∙ ground arith)
  ]

  create_key-IsStored :
      (s : F.State) (public_key private_key : Str)
      → L.HasDir dir s
      → (create_key P F path s).0 ≡ ok (public_key, private_key)
      → IsStored public_key private_key (create_key P F path s).1
  unfolding create_key
  create_key-IsStored s public_key private_key has h = elim (Option-cases (F.generate_key s).0) [
    | inl e ↦ absurd (ground arith)
    | inr (key, e) ↦
        let wrote : (F.write_file path (F.encode_base64 key) (F.generate_key s).1).0 ≡ false =
          ground arith in
        let same : ◌≡◌ {A = Result (Str × Str)} (ok (P.public key, key))
            (ok (public_key, private_key)) =
          ground arith in
        rw (e, create_key)
          (record {
            has_dir = L.write_keeps dir path (F.encode_base64 key) _ (L.generate_keeps dir s has);
            data' = F.encode_base64 key;
            read = L.read-write path (F.encode_base64 key) (F.generate_key s).1 wrote;
            parsed = parse_key-encode key (L.length-generate s key e) ∙ same;
          })
  ]

  load-IsStored :
      (s : F.State) (public_key private_key : Str)
      → (load_or_create_keypair P F dir s).0 ≡ ok (public_key, private_key)
      → IsStored public_key private_key (load_or_create_keypair P F dir s).1
  unfolding load_or_create_keypair
  load-IsStored s public_key private_key h = elim (Bool-cases (F.mkdir_all dir s).0) [
    | inl e ↦ absurd (ground arith)
    | inr e ↦
        let has = L.mkdir_makes dir s e in
        elim (Contents-cases (F.read_file path (F.mkdir_all dir s).1)) [
          | inl (data', r) ↦
              rw (e, load_or_create_keypair)
                (rw (r, load_or_create_keypair)
                  (record { has_dir = has; data' = data'; read = r; parsed = ground arith }))
          | inr (inl r) ↦
              rw (e, load_or_create_keypair)
                (rw (r, load_or_create_keypair)
                  (create_key-IsStored (F.mkdir_all dir s).1 public_key private_key has
                    (ground arith)))
          | inr (inr r) ↦ absurd (ground arith)
        ]
  ]

  stored-again :
      (s : F.State) (public_key private_key : Str)
      → IsStored public_key private_key s
      → load_or_create_keypair P F dir s ≡ (ok (public_key, private_key), s)
  unfolding load_or_create_keypair
  stored-again s public_key private_key x =
      rw (L.mkdir_again dir s x.has_dir, load_or_create_keypair)
        (rw (x.read, load_or_create_keypair)
          (ap (λ k. (k, (F.mkdir_all dir s).1)) x.parsed
            ∙ ap (λ t. (ok (public_key, private_key), t))
                (ap (λ q. q.1) (L.mkdir_again dir s x.has_dir))))

  -- A key pair that was loaded or created is a private key of 64 bytes with its public half, and
  -- the next run loads the same pair and changes nothing, where the files, the generator and
  -- base64 do what they document.
  pub load_or_create_keypair_again :
      (s : F.State) (public_key private_key : Str)
      → (load_or_create_keypair P F dir s).0 ≡ ok (public_key, private_key)
      → (load_or_create_keypair P F dir (load_or_create_keypair P F dir s).1
          ≡ (ok (public_key, private_key), (load_or_create_keypair P F dir s).1))
        × (public_key ≡ P.public private_key)
        × (length private_key ≡ private_key_size)
  load_or_create_keypair_again s public_key private_key h =
      let x = load-IsStored s public_key private_key h in
      let (half, size) = parse_key-ok x.data' public_key private_key x.parsed in
      (stored-again _ public_key private_key x, half, size)
