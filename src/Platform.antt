-- ===== src/Platform.antt =====
-- The parts of Go's standard library that the program calls and that are taken as given: SHA-256,
-- Ed25519 and the RFC 3339 print of a time. Hexadecimal is written out.
use golem_harness.Base.{
  ℕ, ◌+◌, ◌*◌, ◌/◌, ◌%◌, Str, ◌≡◌, ◌≢◌, Bool, true, [], ◌∷◌, length, All, ltb, arith, if◌then◌else◌,
}
use golem_harness.Clock.{Time}

pub record Platform : Type 0 where
  -- sha256.Sum256
  pub sha256 : Str → Str
  -- ed25519.Verify(publicKey, message, signature)
  pub verify : Str → Str → Str → Bool
  -- ed25519.Sign(privateKey, message)
  pub sign : Str → Str → Str
  -- privateKey.Public()
  pub public : Str → Str
  -- ed25519.NewKeyFromSeed
  pub new_key_from_seed : Str → Str
  -- t.UTC().Format(time.RFC3339Nano)
  pub format_time : Time → Str

abbrev pub newline : ℕ
newline = 10

-- No byte of the text is a line feed.
abbrev pub IsLine : Str → Type 0
IsLine = All (λ c. c ≢ newline)

-- ed25519.SeedSize, PublicKeySize, PrivateKeySize, SignatureSize
abbrev pub seed_size : ℕ
seed_size = 32

abbrev pub public_key_size : ℕ
public_key_size = 32

abbrev pub private_key_size : ℕ
private_key_size = 64

abbrev pub signature_size : ℕ
signature_size = 64

-- What the documentation of those packages promises. A signature verifies for a key that was made
-- from a seed; of other texts of 64 bytes nothing is said.
pub record IsLawful (P : Platform) : Type 0 where
  pub length-sha256 : (m : Str) → length (P.sha256 m) ≡ 32
  pub length-sign : (k m : Str) → length k ≡ private_key_size → length (P.sign k m) ≡ signature_size
  pub length-public :
      (k : Str) → length k ≡ private_key_size → length (P.public k) ≡ public_key_size
  pub length-new_key_from_seed :
      (seed : Str) → length seed ≡ seed_size → length (P.new_key_from_seed seed) ≡ private_key_size
  pub verify-sign :
      (seed m : Str)
      → length seed ≡ seed_size
      → P.verify (P.public (P.new_key_from_seed seed)) m (P.sign (P.new_key_from_seed seed) m)
        ≡ true
  pub format_time-IsLine : (t : Time) → IsLine (P.format_time t)
  pub format_time_injective : (t u : Time) → P.format_time t ≡ P.format_time u → t ≡ u

hex_digit : ℕ → ℕ
hex_digit n = if ltb n 10 then 48 + n else 87 + n

-- hex.EncodeToString
unfoldable pub hex_encode : Str → Str
unfolding hex_digit
hex_encode [] = []
hex_encode (c ∷ s) = hex_digit (c / 16) ∷ hex_digit (c % 16) ∷ hex_encode s

pub length-hex_encode : (s : Str) → length (hex_encode s) ≡ 2 * length s
unfolding hex_encode
length-hex_encode [] = omega arith
length-hex_encode (c ∷ s) = omega (arith, length-hex_encode s)

pub hex_encode-IsLine : (s : Str) → IsLine (hex_encode s)
unfolding hex_encode
hex_encode-IsLine [] = tt
hex_encode-IsLine (c ∷ s) = (ground arith, (ground arith, hex_encode-IsLine s))
