-- ===== src/Notify/Channel.antt =====
-- `ChannelName` (internal/notify/notifier.go): the Postgres channel of a space. SHA-1 is a parameter.
use tuplespace.Base.{
  ℕ, zero, suc, ◌+◌, ◌-◌, ◌*◌, ◌/◌, ◌%◌, ◌≤◌, ◌<◌, ◌≡◌, refl, Bool, true, ◌&&◌, ◌||◌, List, [], ◌∷◌,
  ◌++◌, Text, codes, leb, ltb, ◌==◌, length, length-append, take, All, All-append, if◌then◌else◌,
  arith,
}

hex_digit : ℕ → ℕ
hex_digit d = if ltb d 10 then b'0' + d else b'a' + (d - 10)

-- hex.EncodeToString
hex_encode : List ℕ → Text
unfolding hex_digit
hex_encode [] = []
hex_encode (b ∷ bs) = hex_digit (b / 16) ∷ hex_digit (b % 16) ∷ hex_encode bs

module _ (sha1 : Text → List ℕ) where
  unfoldable pub channel_name : Text → Text
  unfolding hex_encode
  channel_name space = codes "tuplespace_" ++ hex_encode (take 8 (sha1 space))

-- The characters that SQL takes in a name with no quotes.
abbrev pub is_identifier_char : ℕ → Bool
is_identifier_char c = (leb b'a' c && leb c b'z') || (leb b'0' c && leb c b'9') || (c == b'_')

-- A lower-case SQL name: a letter first, then letters, digits and underscores.
abbrev pub IsIdentifier : Text → Type 0
IsIdentifier [] = ⊥
IsIdentifier (c ∷ s) =
    ((leb b'a' c && leb c b'z') ≡ true) × All (λ d. is_identifier_char d ≡ true) s

hex_digit-identifier : (d : ℕ) → d < 16 → is_identifier_char (hex_digit d) ≡ true
unfolding hex_digit
hex_digit-identifier d h = ground arith

hex_encode-identifier :
    (n : ℕ) (bs : List ℕ)
    → All (λ b. b < 256) bs
    → All (λ d. is_identifier_char d ≡ true) (hex_encode (take n bs))
unfolding hex_encode
hex_encode-identifier zero bs h = tt
hex_encode-identifier (suc n) [] h = tt
hex_encode-identifier (suc n) (b ∷ bs) (p, h) = (
  hex_digit-identifier (b / 16) (omega arith),
  (hex_digit-identifier (b % 16) (omega arith), hex_encode-identifier n bs h),
)

length-hex_encode-take :
    (n : ℕ) (bs : List ℕ) → n ≤ length bs → length (hex_encode (take n bs)) ≡ n * 2
unfolding hex_encode
length-hex_encode-take zero bs h = refl
length-hex_encode-take (suc n) [] h = absurd (omega arith)
length-hex_encode-take (suc n) (b ∷ bs) h = omega (arith, length-hex_encode-take n bs)

-- Where SHA-1 gives at least eight bytes, the channel of any space is an SQL name of 27 characters,
-- so that "LISTEN " and "UNLISTEN " before it make one statement; Postgres cuts names at 63.
pub channel_name-IsIdentifier :
    (sha1 : Text → List ℕ) (space : Text)
    → 8 ≤ length (sha1 space)
    → All (λ b. b < 256) (sha1 space)
    → IsIdentifier (channel_name sha1 space) × (length (channel_name sha1 space) ≡ 27)
unfolding channel_name
channel_name-IsIdentifier sha1 space long bytes =
    let hex = hex_encode (take 8 (sha1 space)) in
    (
      (refl, All-append _ (codes "uplespace_") hex prefix (hex_encode-identifier 8 _ bytes)),
      omega (arith, length-append (codes "tuplespace_") hex, length-hex_encode-take 8 _ long),
    )
  where
    prefix : All (λ d. is_identifier_char d ≡ true) (codes "uplespace_")
    prefix = (refl, (refl, (refl, (refl, (refl, (refl, (refl, (refl, (refl, (refl, tt))))))))))
