-- ===== src/Registration/Challenge/Payload.antt =====
-- control/controller.go buildDeviceAuthSignedPayload and appendLenPrefixed: the bytes that a device
-- signs.
use sdl_control.Base.{ℕ, ◌^◌, ◌<◌, ◌≡◌, refl, List, [], ◌∷◌, ◌++◌, arith, length, ◌∙◌, sym, All}
use mathlib.Core.List.{append_assoc, append-nil, head-eq_of_cons-eq, tail-eq_of_cons-eq}
use sdl_control.Base.Bytes.{put_be32}

-- Each shift is cut to a byte.
unfoldable pub append_len_prefixed : List ℕ → List ℕ → List ℕ
unfolding put_be32
append_len_prefixed buf bytes = (buf ++ put_be32 (length bytes)) ++ bytes

unfoldable pub build_device_auth_signed_payload : List ℕ → List ℕ → List ℕ → List ℕ → List ℕ
unfolding append_len_prefixed
build_device_auth_signed_payload challenge_id nonce device_id device_pub_key =
    append_len_prefixed
      (append_len_prefixed (append_len_prefixed (append_len_prefixed [] challenge_id) nonce)
        device_id)
      device_pub_key

length_word :
    (a b : ℕ) (xs ys : List ℕ)
    → a < 2 ^ 32
    → b < 2 ^ 32
    → put_be32 a ++ xs ≡ put_be32 b ++ ys
    → (a ≡ b) × (xs ≡ ys)
unfolding put_be32
length_word a b xs ys la lb h =
    let t0 = tail-eq_of_cons-eq h in
    let t1 = tail-eq_of_cons-eq t0 in
    let t2 = tail-eq_of_cons-eq t1 in
    (
      omega (
        arith,
        head-eq_of_cons-eq h,
        head-eq_of_cons-eq t0,
        head-eq_of_cons-eq t1,
        head-eq_of_cons-eq t2,
      ),
      tail-eq_of_cons-eq t2,
    )

-- Two lists that are as long as each other and end the same way
split_equal :
    (xs ys us vs : List ℕ) → length xs ≡ length ys → xs ++ us ≡ ys ++ vs → (xs ≡ ys) × (us ≡ vs)
split_equal [] [] us vs l h = (refl, h)
split_equal [] (y ∷ ys) us vs l h = absurd (omega (arith, l))
split_equal (x ∷ xs) [] us vs l h = absurd (omega (arith, l))
split_equal (x ∷ xs) (y ∷ ys) us vs l h =
    let first = head-eq_of_cons-eq h in
    let (rest, end) = split_equal xs ys us vs (omega (arith, l)) (tail-eq_of_cons-eq h) in (cc, end)

-- A field with its length before it
abbrev field : List ℕ → List ℕ
field bytes = put_be32 (length bytes) ++ bytes

payload_fields :
    (a b c d : List ℕ)
    → build_device_auth_signed_payload a b c d ≡ field a ++ (field b ++ (field c ++ field d))
unfolding build_device_auth_signed_payload append_len_prefixed
payload_fields a b c d = simp (append_assoc)

field_inj :
    (a b xs ys : List ℕ)
    → length a < 2 ^ 32
    → length b < 2 ^ 32
    → field a ++ xs ≡ field b ++ ys
    → (a ≡ b) × (xs ≡ ys)
field_inj a b xs ys la lb h =
    let (n, rest) = length_word (length a) (length b) (a ++ xs) (b ++ ys) la lb (
      sym (append_assoc (put_be32 (length a)) a xs)
      ∙ (h ∙ append_assoc (put_be32 (length b)) b ys)) in
    split_equal a b xs ys n rest

abbrev IsShort : List ℕ → Type 0
IsShort bytes = length bytes < 2 ^ 32

-- Two signed payloads of fields that are shorter than 2 ^ 32 bytes are equal only if all four of
-- their fields are: the signature of a payload covers the challenge, the nonce, the device and its
-- key, and nothing can be moved from one of them to another.
pub payload_inj :
    (a b c d a' b' c' d' : List ℕ)
    → All IsShort (a ∷ b ∷ c ∷ d ∷ a' ∷ b' ∷ c' ∷ d' ∷ [])
    → build_device_auth_signed_payload a b c d ≡ build_device_auth_signed_payload a' b' c' d'
    → (a ≡ a') × (b ≡ b') × (c ≡ c') × (d ≡ d')
payload_inj a b c d a' b' c' d' (sa, (sb, (sc, (sd, (sa', (sb', (sc', (sd', end)))))))) h =
    let whole = sym (payload_fields a b c d) ∙ (h ∙ payload_fields a' b' c' d') in
    let (ea, ra) = field_inj a a' _ _ sa sa' whole in
    let (eb, rb) = field_inj b b' _ _ sb sb' ra in
    let (ec, rc) = field_inj c c' _ _ sc sc' rb in
    let last = append-nil (field d) ∙ (rc ∙ sym (append-nil (field d'))) in
    let (ed, rd) = field_inj d d' [] [] sd sd' last in (ea, eb, ec, ed)
