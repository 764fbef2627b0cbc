-- ===== src/Py/Uuid/Roundtrip.antt =====
-- Printing 16 bytes as a UUID and parsing the text gives the bytes back.
use frp_python.Prelude.{
  nat_beq, codes, length, take, drop, take-append-drop, drop-drop, All, All-append, All-take,
  All-drop, All-mono, ℕ, ◌+◌, ◌*◌, ◌/◌, ◌%◌, ◌<◌, ◌≡◌, refl, ap, ◌∙◌, ◌⊎◌, inl, inr, Bool, true,
  false, some, List, [], ◌∷◌, ◌++◌, arith,
}
use frp_python.Py.Text.{
  Text, strip_none, remove, remove_none, remove-append, remove-cons_self, is_space,
}
use frp_python.Py.Int.{digit_value, digit_step, digits_from}
use frp_python.Py.Bytes.{
  IsByte, AreBytes, hexlify, hex_digit, of_be, of_be_from, to_be-of_be, length-hexlify,
}
use frp_python.Py.Uuid.{is_brace, uuid_hex, hex_digits, drop_plus, uuid_bytes, uuid_text}

-- A digit as `hexlify` prints it.
abbrev IsHex : ℕ → Type 0
IsHex c = (c ≡ 48) ⊎ (48 < c) × (c < 58) ⊎ (96 < c) × (c < 103)

abbrev IsUuidChar : ℕ → Type 0
IsUuidChar c = (c ≡ 45) ⊎ IsHex c

hex_digit-IsHex : (d : ℕ) → d < 16 → IsHex (hex_digit d)
unfolding hex_digit
hex_digit-IsHex d h = ground arith

hexlify-IsHex : (bs : List ℕ) → AreBytes bs → All IsHex (hexlify bs)
unfolding hexlify
hexlify-IsHex [] h = tt
hexlify-IsHex (b ∷ bs) h = (
  hex_digit-IsHex (b / 16) (omega arith),
  (hex_digit-IsHex (b % 16) (omega arith), hexlify-IsHex bs h.1),
)

hexlify-append : (cs bs : List ℕ) → hexlify (cs ++ bs) ≡ hexlify cs ++ hexlify bs
unfolding hexlify
hexlify-append [] bs = refl
hexlify-append (a ∷ cs) bs =
    ap (λ t. hex_digit (a / 16) ∷ hex_digit (a % 16) ∷ t) (hexlify-append cs bs)

digit_value-hex_digit : (d : ℕ) → d < 16 → digit_value (hex_digit d) ≡ some d
unfolding digit_value hex_digit
digit_value-hex_digit d h = ground arith

digit_step-hex_digit :
    (n d : ℕ) (after : Bool)
    → d < 16
    → digit_step 16 (some (n, after)) (hex_digit d) ≡ some (n * 16 + d, true)
unfolding digit_step
digit_step-hex_digit n d after h = ground (arith, digit_value-hex_digit d h, hex_digit-IsHex d h)

digits_from_byte :
    (n b : ℕ) (after : Bool) (s : Text)
    → IsByte b
    → digits_from 16 (some (n, after)) (hex_digit (b / 16) ∷ hex_digit (b % 16) ∷ s)
      ≡ digits_from 16 (some (n * 256 + b, true)) s
unfolding digits_from
digits_from_byte n b after s h =
    rw
      (
        digit_step-hex_digit n (b / 16) after (omega arith),
        digit_step-hex_digit (n * 16 + b / 16) (b % 16) true (omega arith),
      )
      (ap (λ (k : ℕ). digits_from 16 (some (k, true)) s) (omega arith))

digits_from-hexlify :
    (n b : ℕ) (bs : List ℕ) (after : Bool)
    → AreBytes (b ∷ bs)
    → digits_from 16 (some (n, after)) (hexlify (b ∷ bs)) ≡ some (of_be_from n (b ∷ bs), true)
unfolding hexlify of_be_from
digits_from-hexlify n b [] after h = digits_from_byte n b after [] h.0 ∙ unfold digits_from in refl
digits_from-hexlify n b (c ∷ bs) after h =
    digits_from_byte n b after (hexlify (c ∷ bs)) h.0
    ∙ digits_from-hexlify (n * 256 + b) c bs true h.1

IsHex-not-u : (c : ℕ) → IsUuidChar c → nat_beq b'u' c ≡ false
IsHex-not-u c h = ground arith

IsHex-not-dash : (c : ℕ) → IsHex c → nat_beq b'-' c ≡ false
IsHex-not-dash c h = ground arith

IsUuidChar-not-brace : (c : ℕ) → IsUuidChar c → is_brace c ≡ false
IsUuidChar-not-brace c h = ground arith

IsHex-not-space : (c : ℕ) → IsHex c → is_space c ≡ false
IsHex-not-space c h = ground arith

-- A group of digits, and the dashes between groups, as `uuid_text` writes them.
hexlify-IsUuidChar : (bs : List ℕ) → AreBytes bs → All IsUuidChar (hexlify bs)
hexlify-IsUuidChar bs h = All-mono (λ c k. inr k) (hexlify bs) (hexlify-IsHex bs h)

remove_dash_group :
    (bs : List ℕ) (rest : Text)
    → AreBytes bs
    → remove (b'-' ∷ []) (hexlify bs ++ (b'-' ∷ rest)) ≡ hexlify bs ++ remove (b'-' ∷ []) rest
remove_dash_group bs rest h = rw (
  remove-append b'-' (hexlify bs) (b'-' ∷ rest),
  remove_none b'-' [] (hexlify bs) (All-mono IsHex-not-dash (hexlify bs) (hexlify-IsHex bs h)),
  remove-cons_self b'-' rest,
)

module _ (bs : List ℕ) (h : AreBytes bs) where
  group : (i k : ℕ) → AreBytes (take k (drop i bs))
  group i k = All-take IsByte k (drop i bs) (All-drop IsByte i bs h)

  uuid_text-IsUuidChar : All IsUuidChar (uuid_text bs)
  unfolding uuid_text
  uuid_text-IsUuidChar = dashed (take 4 bs) _ (group 0 4) (
      dashed (take 2 (drop 4 bs)) _ (group 4 2) (
        dashed (take 2 (drop 6 bs)) _ (group 6 2) (
          dashed (take 2 (drop 8 bs)) _ (group 8 2)
            (hexlify-IsUuidChar (drop 10 bs) (All-drop IsByte 10 bs h)))))
    where
      dashed :
          (cs : List ℕ) (rest : Text)
          → AreBytes cs
          → All IsUuidChar rest
          → All IsUuidChar (hexlify cs ++ (b'-' ∷ rest))
      dashed cs rest k r =
          All-append IsUuidChar (hexlify cs) (b'-' ∷ rest) (hexlify-IsUuidChar cs k) (inl refl, r)

  split_group : (i k : ℕ) → take k (drop i bs) ++ drop (i + k) bs ≡ drop i bs
  split_group i k = rw (← drop-drop i k bs) (take-append-drop k (drop i bs))

  undashed : remove (b'-' ∷ []) (uuid_text bs) ≡ hexlify bs
  unfolding uuid_text
  undashed =
      simp
        (
          remove_dash_group (take 4 bs) _ (group 0 4),
          remove_dash_group (take 2 (drop 4 bs)) _ (group 4 2),
          remove_dash_group (take 2 (drop 6 bs)) _ (group 6 2),
          remove_dash_group (take 2 (drop 8 bs)) _ (group 8 2),
          remove_none b'-' [] (hexlify (drop 10 bs)) (
              All-mono IsHex-not-dash (hexlify (drop 10 bs))
                (hexlify-IsHex _ (All-drop IsByte 10 bs h))),
        )
        (simp (← hexlify-append)
          (ap hexlify (simp (split_group 8 2, split_group 6 2, split_group 4 2) (split_group 0 4))))

  uuid_hex-uuid_text : uuid_hex (uuid_text bs) ≡ hexlify bs
  unfolding uuid_hex
  uuid_hex-uuid_text =
      rw
        (
          remove_none b'u' (codes "rn:") (uuid_text bs)
              (All-mono IsHex-not-u _ uuid_text-IsUuidChar),
          remove_none b'u' (codes "uid:") (uuid_text bs)
              (All-mono IsHex-not-u _ uuid_text-IsUuidChar),
          strip_none is_brace (uuid_text bs) (All-mono IsUuidChar-not-brace _ uuid_text-IsUuidChar),
        )
        undashed

hex_digits-hexlify :
    (b : ℕ) (bs : List ℕ)
    → AreBytes (b ∷ bs)
    → hex_digits (drop_plus (hexlify (b ∷ bs))) ≡ some (of_be (b ∷ bs))
unfolding hex_digits drop_plus of_be hexlify
hex_digits-hexlify b bs h = ground (
  arith,
  hex_digit-IsHex (b / 16) (omega arith),
  hex_digit-IsHex (b % 16) (omega arith),
  digits_from-hexlify 0 b bs false h,
)

-- A printed UUID parses to the bytes it was printed from.
pub uuid_bytes-uuid_text :
    (bs : List ℕ) → AreBytes bs → length bs ≡ 16 → uuid_bytes (uuid_text bs) ≡ some bs
unfolding uuid_bytes
uuid_bytes-uuid_text [] h n = absurd (omega arith)
uuid_bytes-uuid_text (b ∷ bs) h n =
    let length_32 : length (hexlify (b ∷ bs)) ≡ 32 = omega (arith, length-hexlify (b ∷ bs)) in
    rw
      (
        uuid_hex-uuid_text (b ∷ bs) h,
        strip_none is_space (hexlify (b ∷ bs))
            (All-mono IsHex-not-space _ (hexlify-IsHex (b ∷ bs) h)),
        hex_digits-hexlify b bs h,
        length_32,
      )
      (ap some (rw n at (to_be-of_be (b ∷ bs) h)))
