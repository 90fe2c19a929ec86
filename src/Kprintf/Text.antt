-- ===== src/Kprintf/Text.antt =====
-- The text that each output of kprintf.c amounts to, whatever the sink.
use sifar_os.Common.{
  ℕ, zero, suc, ◌+◌, ◌-◌, ◌/◌, ◌%◌, ◌^◌, ◌≡◌, refl, sym, ap, ◌∙◌, Bool, true, false, ◌&&◌, not,
  List, [], ◌∷◌, ◌++◌, if◌then◌else◌, ◌==◌, length, get_or, replicate, arith, length-append,
}
use sifar_os.Str.{strlen}
use sifar_os.Str.Laws.{strlen-length}
use sifar_os.Kprintf.Sink.{
  Sink, sink_putc, sink_pad, put_string, emit_string, digit_char, digits_of, put_back, emit_digits,
  is_negative, emit_number, room,
}

-- A sink given a text, one character after the other.
unfoldable pub emits : Sink → List ℕ → Sink
emits s [] = s
emits s (c ∷ cs) = emits (sink_putc s c) cs

pub emits-append : (s : Sink) (xs ys : List ℕ) → emits s (xs ++ ys) ≡ emits (emits s xs) ys
unfolding emits
emits-append s [] ys = refl
emits-append s (x ∷ xs) ys = emits-append (sink_putc s x) xs ys

-- A text filled up to a width.
unfoldable pub justify : Bool → ℕ → ℕ → List ℕ → List ℕ
justify left pad width text =
    if left
    then text ++ replicate (room width (length text)) b' '
    else replicate (room width (length text)) pad ++ text

-- A number in a base, highest digit first.
unfoldable pub numeral : ℕ → ℕ → ℕ → Bool → List ℕ
numeral zero value base upper = digit_char upper (value % base) ∷ []
numeral (suc n) value base upper =
    let high = numeral n (value / base) base upper in
    (if value / base == 0 then [] else high) ++ digit_char upper (value % base) ∷ []

-- A number with its sign, justified; zeros go between the sign and the digits.
unfoldable pub number_text : ℕ → ℕ → Bool → Bool → ℕ → Bool → ℕ → List ℕ
number_text value base signed upper width left pad =
    if is_negative value signed
    then (let digits = numeral 34 ((2 ^ 32 - value) % 2 ^ 32) base upper in
        if not left && (pad == b'0')
        then b'-' ∷ justify false pad ((width + (2 ^ 32 - 1)) % 2 ^ 32) digits
        else justify left pad width (b'-' ∷ digits))
    else justify left pad width (numeral 34 value base upper)

sink_pad-emits : (s : Sink) (pad n : ℕ) → sink_pad s pad n ≡ emits s (replicate n pad)
unfolding sink_pad emits
sink_pad-emits s pad zero = refl
sink_pad-emits s pad (suc n) = sink_pad-emits (sink_putc s pad) pad n

put_string-emits : (s : Sink) (cs : List ℕ) → put_string s cs ≡ emits s cs
unfolding put_string emits
put_string-emits s [] = refl
put_string-emits s (c ∷ cs) = put_string-emits (sink_putc s c) cs

-- The entries of a buffer below an index, highest first.
back : List ℕ → ℕ → List ℕ
back tmp zero = []
back tmp (suc i) = get_or tmp i 0 ∷ back tmp i

put_back-emits : (s : Sink) (tmp : List ℕ) (i : ℕ) → put_back s tmp i ≡ emits s (back tmp i)
unfolding put_back emits back
put_back-emits s tmp zero = refl
put_back-emits s tmp (suc i) = put_back-emits (sink_putc s (get_or tmp i 0)) tmp i

back-cons : (x : ℕ) (xs : List ℕ) (i : ℕ) → back (x ∷ xs) (suc i) ≡ back xs i ++ x ∷ []
unfolding back
back-cons x xs zero = refl
back-cons x xs (suc i) = ap (λ z. get_or xs i 0 ∷ z) (back-cons x xs i)

back-digit :
    (b : Bool) (x : ℕ) (ds num ys : List ℕ)
    → back (ds ++ ys) (length ds) ≡ num
    → back ((x ∷ (if b then [] else ds)) ++ ys) (suc (length (if b then [] else ds)))
      ≡ (if b then [] else num) ++ x ∷ []
unfolding back
back-digit true x ds num ys e = refl
back-digit false x ds num ys e = back-cons x (ds ++ ys) (length ds) ∙ ap (λ z. z ++ x ∷ []) e

-- The digits, put out from the last to the first, are the number; what follows them is not read.
back-digits_of :
    (n value base : ℕ) (upper : Bool) (ys : List ℕ)
    → back (digits_of n value base upper ++ ys) (length (digits_of n value base upper))
      ≡ numeral n value base upper
unfolding digits_of numeral back
back-digits_of zero value base upper ys = refl
back-digits_of (suc n) value base upper ys =
    back-digit (value / base == 0) (digit_char upper (value % base)) _ _ ys
      (back-digits_of n (value / base) base upper ys)

length-back : (tmp : List ℕ) (i : ℕ) → length (back tmp i) ≡ i
unfolding back
length-back tmp zero = refl
length-back tmp (suc i) = ap suc (length-back tmp i)

-- The end of `emit_number`.
emit_digits-emits :
    (s : Sink) (tmp text : List ℕ) (i written width : ℕ) (left : Bool) (pad : ℕ)
    → back tmp i ≡ text
    → (left ≡ true → written ≡ i)
    → emit_digits s tmp i written width left pad ≡ emits s (justify left pad width text)
unfolding justify
emit_digits-emits s tmp text i written width true pad e w =
    sink_pad-emits (put_back s tmp i) b' ' (room width written)
    ∙ (ap (λ z. emits z (replicate (room width written) b' '))
          (put_back-emits s tmp i ∙ ap (emits s) e)
        ∙ (ap (λ n. emits (emits s text) (replicate (room width n) b' '))
              (w refl ∙ (sym (length-back tmp i) ∙ ap length e))
            ∙ sym (emits-append s text (replicate (room width (length text)) b' '))))
emit_digits-emits s tmp text i written width false pad e w =
    ap (λ z. put_back z tmp i) (sink_pad-emits s pad (room width i))
    ∙ (put_back-emits (emits s (replicate (room width i) pad)) tmp i
        ∙ (ap (emits (emits s (replicate (room width i) pad))) e
            ∙ (sym (emits-append s (replicate (room width i) pad) text)
                ∙ ap (λ n. emits s (replicate (room width n) pad ++ text))
                    (sym (length-back tmp i) ∙ ap length e))))

get_or-length : (xs : List ℕ) (y : ℕ) → get_or (xs ++ y ∷ []) (length xs) 0 ≡ y
get_or-length [] y = refl
get_or-length (x ∷ xs) y = get_or-length xs y

append_nil : (xs : List ℕ) → xs ++ [] ≡ xs
append_nil [] = refl
append_nil (x ∷ xs) = ap (λ z. x ∷ z) (append_nil xs)

-- The sign stands last in `tmp`.
back-sign :
    (low high : List ℕ)
    → back (low ++ b'-' ∷ []) (length low) ≡ high
    → back (low ++ b'-' ∷ []) (length (low ++ b'-' ∷ [])) ≡ b'-' ∷ high
unfolding back
back-sign low high e =
    let n : length (low ++ b'-' ∷ []) ≡ suc (length low) =
      omega (arith, length-append low (b'-' ∷ [])) in
    ap (back (low ++ b'-' ∷ [])) n
    ∙ (ap (λ x. x ∷ back (low ++ b'-' ∷ []) (length low)) (get_or-length low b'-')
        ∙ ap (λ z. b'-' ∷ z) e)

-- Its branches: `neg` is the sign, and `nought` that zeros fill up.
signed-emits :
    (s : Sink) (low high plain number : List ℕ) (neg nought left : Bool) (width pad : ℕ)
    → ((ys : List ℕ) → back (low ++ ys) (length low) ≡ high)
    → back plain (length plain) ≡ number
    → (let tmp = if neg then low ++ b'-' ∷ [] else plain in
        let i = length tmp in
        (if not left && (nought && neg)
          then emit_digits
              (sink_putc s b'-')
              tmp
              (i - 1)
              i
              ((width + (2 ^ 32 - 1)) % 2 ^ 32)
              left
              pad
          else emit_digits s tmp i i width left pad)
        ≡ emits s (
            if neg
            then (if not left && nought
                then b'-' ∷ justify false pad ((width + (2 ^ 32 - 1)) % 2 ^ 32) high
                else justify left pad width (b'-' ∷ high))
            else justify left pad width number))
unfolding emits
signed-emits s low high plain number false true true width pad a b =
    emit_digits-emits s plain number _ _ width true pad b (λ e. refl)
signed-emits s low high plain number false true false width pad a b =
    emit_digits-emits s plain number _ _ width false pad b (λ e. refl)
signed-emits s low high plain number false false true width pad a b =
    emit_digits-emits s plain number _ _ width true pad b (λ e. refl)
signed-emits s low high plain number false false false width pad a b =
    emit_digits-emits s plain number _ _ width false pad b (λ e. refl)
signed-emits s low high plain number true true false width pad a b =
    emit_digits-emits (sink_putc s b'-') (low ++ b'-' ∷ []) high (length (low ++ b'-' ∷ []) - 1)
      (length (low ++ b'-' ∷ [])) ((width + (2 ^ 32 - 1)) % 2 ^ 32) false pad
      (ap (back (low ++ b'-' ∷ [])) below ∙ a (b'-' ∷ [])) (λ e. absurd (clash e))
  where
    clash : false ≡ true → ⊥
    clash e = cc

    below : length (low ++ b'-' ∷ []) - 1 ≡ length low
    below = omega (arith, length-append low (b'-' ∷ []))
signed-emits s low high plain number true true true width pad a b =
    emit_digits-emits s _ _ _ _ width true pad (back-sign low high (a (b'-' ∷ []))) (λ e. refl)
signed-emits s low high plain number true false true width pad a b =
    emit_digits-emits s _ _ _ _ width true pad (back-sign low high (a (b'-' ∷ []))) (λ e. refl)
signed-emits s low high plain number true false false width pad a b =
    emit_digits-emits s _ _ _ _ width false pad (back-sign low high (a (b'-' ∷ []))) (λ e. refl)

-- `emit_number` puts out the number, justified.
pub emit_number-emits :
    (s : Sink) (value base : ℕ) (signed upper : Bool) (width : ℕ) (left : Bool) (pad : ℕ)
    → emit_number s value base signed upper width left pad
      ≡ emits s (number_text value base signed upper width left pad)
unfolding emit_number number_text
emit_number-emits s value base signed upper width left pad =
    signed-emits s (digits_of 34 ((2 ^ 32 - value) % 2 ^ 32) base upper)
      (numeral 34 ((2 ^ 32 - value) % 2 ^ 32) base upper) (digits_of 34 value base upper)
      (numeral 34 value base upper) (is_negative value signed) (pad == b'0') left width pad
      (λ ys. back-digits_of 34 _ base upper ys)
      (ap (λ z. back z (length (digits_of 34 value base upper))) (sym (append_nil _))
        ∙ back-digits_of 34 value base upper [])

pub emit_string-emits :
    (s : Sink) (text : List ℕ) (width : ℕ) (left : Bool) (pad : ℕ)
    → emit_string s text width left pad ≡ emits s (justify left pad width text)
unfolding emit_string justify
emit_string-emits s text width true pad =
    sink_pad-emits (put_string s text) b' ' (room width (strlen text))
    ∙ (ap (λ z. emits z (replicate (room width (strlen text)) b' ')) (put_string-emits s text)
        ∙ (ap (λ n. emits (emits s text) (replicate (room width n) b' ')) (strlen-length text)
            ∙ sym (emits-append s text (replicate (room width (length text)) b' '))))
emit_string-emits s text width false pad =
    ap (λ z. put_string z text) (sink_pad-emits s pad (room width (strlen text)))
    ∙ (put_string-emits _ text
        ∙ (ap (λ n. emits (emits s (replicate (room width n) pad)) text) (strlen-length text)
            ∙ sym (emits-append s (replicate (room width (length text)) pad) text)))
