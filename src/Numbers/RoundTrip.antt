-- ===== src/Numbers/RoundTrip.antt =====
-- `format_hex` against `int(s, 0)`.
use dynvar_sync.Base.{
  ℕ, zero, suc, ◌+◌, ◌*◌, ◌/◌, ◌%◌, ◌<◌, ltb, ◌==◌, Bool, true, false, Option, none, some, String,
  ℤ, pos, negsuc, ◌≡◌, refl, arith, ◌∙◌, Bool-cases, inl, inr, ap, sym,
}
use Prim.Native.Char.{code}
use dynvar_sync.Numbers.{
  digit_char, digit_value, hex_digits, hex, format_hex, read_digits, read_prefixed, read_unsigned,
  read_signed, positive, strip, int_text, is_space, skip_spaces, drop_spaces,
}

pub digit_value-digit_char : (n : ℕ) → n < 16 → digit_value (digit_char n) ≡ some n
unfolding digit_value digit_char
digit_value-digit_char zero h = refl
digit_value-digit_char (suc zero) h = refl
digit_value-digit_char (suc (suc zero)) h = refl
digit_value-digit_char (suc (suc (suc zero))) h = refl
digit_value-digit_char (suc (suc (suc (suc zero)))) h = refl
digit_value-digit_char (suc (suc (suc (suc (suc zero))))) h = refl
digit_value-digit_char (suc (suc (suc (suc (suc (suc zero)))))) h = refl
digit_value-digit_char (suc (suc (suc (suc (suc (suc (suc zero))))))) h = refl
digit_value-digit_char (suc (suc (suc (suc (suc (suc (suc (suc zero)))))))) h = refl
digit_value-digit_char (suc (suc (suc (suc (suc (suc (suc (suc (suc zero))))))))) h = refl
digit_value-digit_char (suc (suc (suc (suc (suc (suc (suc (suc (suc (suc zero)))))))))) h = refl
digit_value-digit_char (suc (suc (suc (suc (suc (suc (suc (suc (suc (suc (suc zero))))))))))) h =
    refl
digit_value-digit_char (suc (suc (suc (suc (suc (suc (suc (suc (suc (suc (suc (suc zero))))))))))))
      h =
    refl
digit_value-digit_char
      (suc (suc (suc (suc (suc (suc (suc (suc (suc (suc (suc (suc (suc zero))))))))))))) h =
    refl
digit_value-digit_char
      (suc (suc (suc (suc (suc (suc (suc (suc (suc (suc (suc (suc (suc (suc zero)))))))))))))) h =
    refl
digit_value-digit_char
      (suc (suc (suc (suc (suc (suc (suc (suc (suc (suc (suc (suc (suc (suc (suc zero)))))))))))))))
      h =
    refl
digit_value-digit_char
      (suc
        (suc (suc (suc (suc (suc (suc (suc (suc (suc (suc (suc (suc (suc (suc (suc n))))))))))))))))
      h =
    absurd (omega arith)

digit_char-is_digit : (n : ℕ) → n < 16 → (code (digit_char n) == b'_') ≡ false
unfolding digit_char
digit_char-is_digit zero h = refl
digit_char-is_digit (suc zero) h = refl
digit_char-is_digit (suc (suc zero)) h = refl
digit_char-is_digit (suc (suc (suc zero))) h = refl
digit_char-is_digit (suc (suc (suc (suc zero)))) h = refl
digit_char-is_digit (suc (suc (suc (suc (suc zero))))) h = refl
digit_char-is_digit (suc (suc (suc (suc (suc (suc zero)))))) h = refl
digit_char-is_digit (suc (suc (suc (suc (suc (suc (suc zero))))))) h = refl
digit_char-is_digit (suc (suc (suc (suc (suc (suc (suc (suc zero)))))))) h = refl
digit_char-is_digit (suc (suc (suc (suc (suc (suc (suc (suc (suc zero))))))))) h = refl
digit_char-is_digit (suc (suc (suc (suc (suc (suc (suc (suc (suc (suc zero)))))))))) h = refl
digit_char-is_digit (suc (suc (suc (suc (suc (suc (suc (suc (suc (suc (suc zero))))))))))) h = refl
digit_char-is_digit (suc (suc (suc (suc (suc (suc (suc (suc (suc (suc (suc (suc zero)))))))))))) h =
    refl
digit_char-is_digit
      (suc (suc (suc (suc (suc (suc (suc (suc (suc (suc (suc (suc (suc zero))))))))))))) h =
    refl
digit_char-is_digit
      (suc (suc (suc (suc (suc (suc (suc (suc (suc (suc (suc (suc (suc (suc zero)))))))))))))) h =
    refl
digit_char-is_digit
      (suc (suc (suc (suc (suc (suc (suc (suc (suc (suc (suc (suc (suc (suc (suc zero)))))))))))))))
      h =
    refl
digit_char-is_digit
      (suc
        (suc (suc (suc (suc (suc (suc (suc (suc (suc (suc (suc (suc (suc (suc (suc n))))))))))))))))
      h =
    absurd (omega arith)

read_digit :
    (wanted : Bool) (acc d : ℕ) (s : String)
    → d < 16
    → read_digits 16 wanted acc (String.◌∷◌ (digit_char d) s)
      ≡ read_digits 16 false (acc * 16 + d) s
unfolding read_digits
read_digit wanted acc d s h =
    rw (digit_char-is_digit d h, digit_value-digit_char d h)
      (let lt : ltb d 16 ≡ true = ground arith in rw lt refl)

read-hex_digits :
    (fuel n : ℕ) (s : String) (wanted : Bool)
    → n < fuel
    → read_digits 16 wanted 0 (hex_digits fuel n s) ≡ read_digits 16 false n s
unfolding hex_digits
read-hex_digits zero n s wanted h = absurd (omega arith)
read-hex_digits (suc fuel) n s wanted h = elim (Bool-cases (ltb n 16)) [
  | inl small ↦
      rw small
        (read_digit wanted 0 n s (ground arith) ∙ ap (λ k. read_digits 16 false k s) (omega arith))
  | inr large ↦ rw large (
      read-hex_digits fuel (n / 16) _ wanted (ground arith)
      ∙ (read_digit false (n / 16) (n % 16) s (omega arith)
          ∙ ap (λ k. read_digits 16 false k s) (omega arith)))
]

hex_digits-cons :
    (fuel n : ℕ) (s : String)
    → n < fuel
    → (d : ℕ) × (rest : String) × (d < 16) × (hex_digits fuel n s ≡ String.◌∷◌ (digit_char d) rest)
unfolding hex_digits
hex_digits-cons zero n s h = absurd (omega arith)
hex_digits-cons (suc fuel) n s h = elim (Bool-cases (ltb n 16)) [
  | inl small ↦ (n, s, ground arith, rw small refl)
  | inr large ↦ rw large (hex_digits-cons fuel (n / 16) _ (ground arith))
]

pub digit_char-nonspace : (n : ℕ) → n < 16 → is_space (digit_char n) ≡ false
unfolding digit_char
digit_char-nonspace zero h = refl
digit_char-nonspace (suc zero) h = refl
digit_char-nonspace (suc (suc zero)) h = refl
digit_char-nonspace (suc (suc (suc zero))) h = refl
digit_char-nonspace (suc (suc (suc (suc zero)))) h = refl
digit_char-nonspace (suc (suc (suc (suc (suc zero))))) h = refl
digit_char-nonspace (suc (suc (suc (suc (suc (suc zero)))))) h = refl
digit_char-nonspace (suc (suc (suc (suc (suc (suc (suc zero))))))) h = refl
digit_char-nonspace (suc (suc (suc (suc (suc (suc (suc (suc zero)))))))) h = refl
digit_char-nonspace (suc (suc (suc (suc (suc (suc (suc (suc (suc zero))))))))) h = refl
digit_char-nonspace (suc (suc (suc (suc (suc (suc (suc (suc (suc (suc zero)))))))))) h = refl
digit_char-nonspace (suc (suc (suc (suc (suc (suc (suc (suc (suc (suc (suc zero))))))))))) h = refl
digit_char-nonspace (suc (suc (suc (suc (suc (suc (suc (suc (suc (suc (suc (suc zero)))))))))))) h =
    refl
digit_char-nonspace
      (suc (suc (suc (suc (suc (suc (suc (suc (suc (suc (suc (suc (suc zero))))))))))))) h =
    refl
digit_char-nonspace
      (suc (suc (suc (suc (suc (suc (suc (suc (suc (suc (suc (suc (suc (suc zero)))))))))))))) h =
    refl
digit_char-nonspace
      (suc (suc (suc (suc (suc (suc (suc (suc (suc (suc (suc (suc (suc (suc (suc zero)))))))))))))))
      h =
    refl
digit_char-nonspace
      (suc
        (suc (suc (suc (suc (suc (suc (suc (suc (suc (suc (suc (suc (suc (suc (suc n))))))))))))))))
      h =
    absurd (omega arith)

read_prefixed-digit :
    (d : ℕ) (s : String)
    → d < 16
    → read_prefixed 16 (String.◌∷◌ (digit_char d) s)
      ≡ read_digits 16 true 0 (String.◌∷◌ (digit_char d) s)
unfolding read_prefixed
read_prefixed-digit d s h = rw (digit_char-is_digit d h) refl

read_prefixed-hex_digits :
    (fuel n : ℕ) → n < fuel → read_prefixed 16 (hex_digits fuel n "") ≡ some n
unfolding read_digits
read_prefixed-hex_digits fuel n h =
    let (d, rest, small, e) = hex_digits-cons fuel n "" h in
    (ap (read_prefixed 16) e ∙ read_prefixed-digit d rest small)
    ∙ (ap (read_digits 16 true 0) (sym e) ∙ read-hex_digits fuel n "" true h)

drop_spaces-digit :
    (d : ℕ) (s : String)
    → d < 16
    → drop_spaces (String.◌∷◌ (digit_char d) s) ≡ String.◌∷◌ (digit_char d) (drop_spaces s)
unfolding drop_spaces
drop_spaces-digit d s h = rw (digit_char-nonspace d h) refl

drop_spaces-hex_digits :
    (fuel n : ℕ) (s : String)
    → drop_spaces (hex_digits fuel n s) ≡ hex_digits fuel n (drop_spaces s)
unfolding hex_digits
drop_spaces-hex_digits zero n s = refl
drop_spaces-hex_digits (suc fuel) n s = elim (Bool-cases (ltb n 16)) [
  | inl small ↦ rw small (drop_spaces-digit n s (ground arith))
  | inr large ↦ rw large (
      drop_spaces-hex_digits fuel (n / 16) _
      ∙ ap (hex_digits fuel (n / 16)) (drop_spaces-digit (n % 16) s (omega arith)))
]

strip-format_hex : (z : ℤ) → strip (format_hex z) ≡ format_hex z
unfolding strip format_hex hex skip_spaces drop_spaces
strip-format_hex (pos n) =
    ap (λ s. String.◌∷◌ "0" (String.◌∷◌ "x" s)) (drop_spaces-hex_digits (suc n) n "")
strip-format_hex (negsuc n) =
    ap (λ s. String.◌∷◌ "0" (String.◌∷◌ "x" (String.◌∷◌ "-" s)))
      (drop_spaces-hex_digits (suc (suc n)) (suc n) "")

-- What `int(s, 0)` makes of the text of a number.
abbrev pub readable : ℤ → Option ℤ
readable (pos n) = some (pos n)
readable (negsuc n) = none

read_signed-format_hex : (z : ℤ) → read_signed (format_hex z) ≡ readable z
unfolding read_signed read_unsigned read_prefixed read_digits format_hex hex digit_value positive
read_signed-format_hex (pos n) = ap positive (read_prefixed-hex_digits (suc n) n (omega arith))
read_signed-format_hex (negsuc n) = refl

-- Every number that is not negative is read back; the text of a negative one, such as `0x-5`, is
-- refused.
pub int_text-format_hex : (z : ℤ) → int_text (format_hex z) ≡ readable z
unfolding int_text
int_text-format_hex z = ap read_signed (strip-format_hex z) ∙ read_signed-format_hex z
