-- ===== src/Tests/Toy.antt =====
-- A platform that meets the assumptions: a checksum for a hash, a key followed by a checksum for a
-- signature, and tally marks for a time.
use golem_harness.Base.{
  ℕ, zero, suc, ◌+◌, ◌%◌, Str, ◌≡◌, refl, ◌≢◌, sym, ap, [], ◌∷◌, ◌++◌, length, length-append, take,
  arith, str_eq, str_eq_refl,
}
use golem_harness.Base.Int.{pos, negsuc}
use golem_harness.Clock.{Time}
use golem_harness.Platform.{Platform, IsLawful, IsLine, newline}

abbrev pub repeated : ℕ → ℕ → Str
repeated zero c = []
repeated (suc n) c = c ∷ repeated n c

abbrev total : Str → ℕ
total [] = 0
total (c ∷ s) = c + total s

abbrev pub checksum : Str → Str
checksum m = (total m % 256) ∷ repeated 31 0

abbrev tally : Time → Str
tally (pos n) = repeated n 49
tally (negsuc n) = 45 ∷ repeated n 49

abbrev pub toy : Platform
toy = record {
  sha256 = checksum;
  verify = λ key m s. str_eq s (key ++ checksum m);
  sign = λ key m. take 32 key ++ checksum m;
  public = λ key. take 32 key;
  new_key_from_seed = λ seed. seed ++ seed;
  format_time = tally;
}

length-take : (n : ℕ) (s : Str) (m : ℕ) → length s ≡ n + m → length (take n s) ≡ n
length-take zero s m h = refl
length-take (suc n) [] m h = absurd (omega arith)
length-take (suc n) (c ∷ s) m h = omega (arith, length-take n s m)

repeated-IsLine : (n c : ℕ) → c ≢ newline → IsLine (repeated n c)
repeated-IsLine zero c h = tt
repeated-IsLine (suc n) c h = (h, repeated-IsLine n c h)

tally-IsLine : (t : Time) → IsLine (tally t)
tally-IsLine (pos n) = repeated-IsLine n 49 (omega arith)
tally-IsLine (negsuc n) = (omega arith, repeated-IsLine n 49 (omega arith))

length-repeated : (n c : ℕ) → length (repeated n c) ≡ n
length-repeated zero c = refl
length-repeated (suc n) c = omega (arith, length-repeated n c)

repeated_injective : (m n c : ℕ) → repeated m c ≡ repeated n c → m ≡ n
repeated_injective m n c e = omega (arith, length-repeated m c, length-repeated n c, ap length e)

tally_mixed : (m n : ℕ) → repeated m 49 ≢ 45 ∷ repeated n 49
tally_mixed zero n e = cc
tally_mixed (suc m) n e = ground arith

tally_injective : (t u : Time) → tally t ≡ tally u → t ≡ u
tally_injective (pos m) (pos n) e = ap pos (repeated_injective m n 49 e)
tally_injective (pos m) (negsuc n) e = absurd (tally_mixed m n e)
tally_injective (negsuc m) (pos n) e = absurd (tally_mixed n m (sym e))
tally_injective (negsuc m) (negsuc n) e = ap negsuc (repeated_injective m n 49 (cc))

pub toy-IsLawful : IsLawful toy
toy-IsLawful = record {
  length-sha256 = λ m. refl;
  length-sign =
      λ k m h. omega (arith, length-append (take 32 k) (checksum m), length-take 32 k 32 h);
  length-public = λ k h. length-take 32 k 32 h;
  length-new_key_from_seed = λ seed h. omega (arith, length-append seed seed, h);
  verify-sign = λ seed m h. str_eq_refl (take 32 (seed ++ seed) ++ checksum m);
  format_time-IsLine = tally-IsLine;
  format_time_injective = tally_injective;
}
