-- ===== src/Release/Trailer.antt =====
-- `attach`, `detach` and `strip` of release/src/lib.rs: the metadata block behind a binary. The
-- JSON encoding is serde's: a parameter, with its round trip as the one law.
use douglas.Base.{
  map_err-eq-ok, ℕ, ◌+◌, ◌-◌, ◌*◌, ◌/◌, ◌%◌, ◌^◌, ◌<◌, ◌≡◌, ap, sym, subst, String, true, List, [],
  ◌∷◌, ◌++◌, append_assoc, Result, ok, err, map_err, ok-injective, ltb, leb, if◌then◌else◌, length,
  length-append, take, drop, take-append, drop-append, ◌>>=◌, arith, >>=-eq-ok,
}
use douglas.Release.{ReleaseMetadata}

pub data ReleaseError : Type 0 where
  malformed : String → ReleaseError

-- `serde_json::to_vec` and `from_slice` at one type, with the text of an error.
pub record Json (A : Type 0) : Type 0 where
  pub to_vec : A → Result String (List ℕ)
  pub from_slice : List ℕ → Result String A
  pub round_trip : (a : A) (bytes : List ℕ) → to_vec a ≡ ok bytes → from_slice bytes ≡ ok a

abbrev pub length_len : ℕ
length_len = 4

-- `u32::to_le_bytes` and `u32::from_le_bytes`
abbrev pub to_le_bytes : ℕ → List ℕ
to_le_bytes n = (n % 256) ∷ (n / 256 % 256) ∷ (n / 65536 % 256) ∷ (n / 16777216 % 256) ∷ []

abbrev pub from_le_bytes : List ℕ → ℕ
from_le_bytes [] = 0
from_le_bytes (b ∷ bs) = b + 256 * from_le_bytes bs

abbrev pub u32_try_from : ℕ → Result ReleaseError ℕ
u32_try_from n = if ltb n (2 ^ 32) then ok n else err (malformed "metadata is too large")

module _ (json : Json ReleaseMetadata) where
  -- `&mut payload` is the first argument and the result.
  unfoldable pub attach : List ℕ → ReleaseMetadata → Result ReleaseError (List ℕ)
  attach payload metadata = do
    block ← map_err malformed (json.to_vec metadata)
    size ← u32_try_from (length block)
    ok ((payload ++ block) ++ to_le_bytes size)

  abbrev pub checked_sub : ℕ → ℕ → String → Result ReleaseError ℕ
  checked_sub a b reason = if leb b a then ok (a - b) else err (malformed reason)

  unfoldable pub detach : List ℕ → Result ReleaseError (List ℕ × ReleaseMetadata)
  detach payload = do
    length_start ← checked_sub (length payload) length_len "missing length"
    let size = from_le_bytes (drop length_start payload)
    json_start ← checked_sub length_start size "length exceeds the payload"
    metadata ← map_err malformed (json.from_slice (drop json_start (take length_start payload)))
    ok (take json_start payload, metadata)

  unfoldable pub strip : List ℕ → Result ReleaseError (List ℕ)
  strip payload = do found ← detach payload; ok (take (length found.0) payload)

  le_bytes_round_trip : (n : ℕ) → n < 2 ^ 32 → from_le_bytes (to_le_bytes n) ≡ n
  le_bytes_round_trip n h = omega arith

  -- What `attach` builds: the payload, the block, and four bytes with its length.
  attach_shape :
      (payload attached : List ℕ) (metadata : ReleaseMetadata)
      → attach payload metadata ≡ ok attached
      → (block : List ℕ) × (json.to_vec metadata ≡ ok block)
        × (length block < 2 ^ 32)
        × (attached ≡ (payload ++ block) ++ to_le_bytes (length block))
  unfolding attach
  attach_shape payload attached metadata h =
      let (block, e, h₁) = >>=-eq-ok (map_err malformed (json.to_vec metadata)) _ h in
      let (size, f, h₂) = >>=-eq-ok (u32_try_from (length block)) _ h₁ in
      let (small, same) = u32_try_from-ok (length block) size f in
      (
        block,
        map_err-eq-ok malformed (json.to_vec metadata) block e,
        small,
        rw (← same) (sym (ok-injective h₂)),
      )
    where
      u32_try_from-ok : (n m : ℕ) → u32_try_from n ≡ ok m → (n < 2 ^ 32) × (m ≡ n)
      u32_try_from-ok n m e = ground arith

  -- How `detach` goes through.
  detach_steps :
      (data_bytes : List ℕ) (start json_start : ℕ) (metadata : ReleaseMetadata)
      → leb 4 (length data_bytes) ≡ true
      → length data_bytes - 4 ≡ start
      → leb (from_le_bytes (drop start data_bytes)) start ≡ true
      → start - from_le_bytes (drop start data_bytes) ≡ json_start
      → json.from_slice (drop json_start (take start data_bytes)) ≡ ok metadata
      → detach data_bytes ≡ ok (take json_start data_bytes, metadata)
  unfolding detach
  detach_steps data_bytes start json_start metadata a b c d e = rw (a, b, c, d, e)

  detach_shape :
      (payload block : List ℕ) (metadata : ReleaseMetadata)
      → json.from_slice block ≡ ok metadata
      → length block < 2 ^ 32
      → detach ((payload ++ block) ++ to_le_bytes (length block)) ≡ ok (payload, metadata)
  detach_shape payload block metadata e h =
      subst (λ front. detach whole ≡ ok (front, metadata)) front_is_payload
        (detach_steps whole (length (payload ++ block)) (length payload) metadata long start fits
          middle (rw (take-append (payload ++ block) tail) (rw (drop-append payload block) e)))
    where
      tail : List ℕ
      tail = to_le_bytes (length block)

      whole : List ℕ
      whole = (payload ++ block) ++ tail

      long : leb 4 (length whole) ≡ true
      long = ground (arith, length-append (payload ++ block) tail)

      start : length whole - 4 ≡ length (payload ++ block)
      start = omega (arith, length-append (payload ++ block) tail)

      size : from_le_bytes (drop (length (payload ++ block)) whole) ≡ length block
      size = rw (drop-append (payload ++ block) tail) (le_bytes_round_trip (length block) h)

      fits :
          leb (from_le_bytes (drop (length (payload ++ block)) whole)) (length (payload ++ block))
          ≡ true
      fits = rw size (ground (arith, length-append payload block))

      middle :
          length (payload ++ block) - from_le_bytes (drop (length (payload ++ block)) whole)
          ≡ length payload
      middle = rw size (omega (arith, length-append payload block))

      front_is_payload : take (length payload) whole ≡ payload
      front_is_payload = rw (append_assoc payload block tail) (take-append payload (block ++ tail))

  -- What was attached is detached again, together with the payload before it, and `strip` gives
  -- back that payload.
  pub detach-attach :
      (payload attached : List ℕ) (metadata : ReleaseMetadata)
      → attach payload metadata ≡ ok attached
      → (detach attached ≡ ok (payload, metadata)) × (strip attached ≡ ok payload)
  unfolding strip
  detach-attach payload attached metadata h =
      let (block, e, small, shape) = attach_shape payload attached metadata h in
      let back = detach_shape payload block metadata (json.round_trip metadata block e) small in
      rw shape (
        back,
        rw back (
            ap ok (
              rw (append_assoc payload block (to_le_bytes (length block)))
                (take-append payload (block ++ to_le_bytes (length block))))),
      )
