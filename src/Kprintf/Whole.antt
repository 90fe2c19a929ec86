-- ===== src/Kprintf/Whole.antt =====
-- A whole format: its text, the console and the buffer.
use sifar_os.Common.{
  ℕ, zero, suc, ◌+◌, ◌%◌, ◌≡◌, refl, sym, ap, ◌∙◌, Bool, true, false, ◌||◌, not, List, [], ◌∷◌,
  ◌++◌, if◌then◌else◌, ◌==◌,
}
use sifar_os.Kprintf.Sink.{Sink, sink_putc}
use sifar_os.Kprintf.Format.{Directive, argument_string, convert, read_directive, format_loop}
use sifar_os.Kprintf.Text.{
  emits, emits-append, justify, number_text, emit_number-emits, emit_string-emits,
}

-- The text of one conversion, and whether it takes an argument.
unfoldable pub conversion : (ℕ → List ℕ) → Directive → ℕ → ℕ → List ℕ × Bool
conversion string_at d c arg =
    if c == b'c'
    then (arg % 256 ∷ [], true)
    else if c == b's'
    then (justify d.left b' ' d.width (argument_string string_at arg), true)
    else if c == b'd' || c == b'i'
    then (number_text arg 10 true false d.width d.left d.pad, true)
    else if c == b'u'
    then (number_text arg 10 false false d.width d.left d.pad, true)
    else if c == b'x'
    then (number_text arg 16 false false d.width d.left d.pad, true)
    else if c == b'X'
    then (number_text arg 16 false true d.width d.left d.pad, true)
    else if c == b'o'
    then (number_text arg 8 false false d.width d.left d.pad, true)
    else if c == b'p'
    then (b'0' ∷ b'x' ∷ number_text arg 16 false false 8 false b'0', true)
    else if c == b'%'
    then (b'%' ∷ [], false)
    else (b'%' ∷ c ∷ [], false)

-- The text of a format.
unfoldable pub format_text : (ℕ → List ℕ) → (ℕ → ℕ) → ℕ → List ℕ → ℕ → List ℕ
format_text string_at args zero fmt k = []
format_text string_at args (suc n) [] k = []
format_text string_at args (suc n) (c ∷ cs) k =
    let d = read_directive cs in
    let plain = format_text string_at args n cs k in
    if not (c == b'%') then c ∷ plain else elim d.rest [
      | [] ↦ []
      | e ∷ rest ↦
          (let (text, taken) = conversion string_at d e (args k) in
            text ++ format_text string_at args n rest (if taken then k + 1 else k))
    ]

abbrev puts : Sink → List ℕ × Bool → Sink × Bool
puts s (text, taken) = (emits s text, taken)

if_puts :
    (s : Sink) (b : Bool) (x x' : Sink × Bool) (y y' : List ℕ × Bool)
    → x ≡ puts s y
    → x' ≡ puts s y'
    → (if b then x else x') ≡ puts s (if b then y else y')
if_puts s true x x' y y' e e' = e
if_puts s false x x' y y' e e' = e'

convert-puts :
    (string_at : ℕ → List ℕ) (s : Sink) (d : Directive) (c arg : ℕ)
    → convert string_at s d c arg ≡ puts s (conversion string_at d c arg)
unfolding convert conversion emits
convert-puts string_at s d c arg = if_puts s (c == b'c') _ _ _ _ refl (
    if_puts s (c == b's') _ _ _ _
      (ap (λ t. (t, true))
        (emit_string-emits s (argument_string string_at arg) d.width d.left b' '))
      (if_puts s (c == b'd' || c == b'i') _ _ _ _
        (ap (λ t. (t, true)) (emit_number-emits s arg 10 true false d.width d.left d.pad))
        (if_puts s (c == b'u') _ _ _ _
          (ap (λ t. (t, true)) (emit_number-emits s arg 10 false false d.width d.left d.pad))
          (if_puts s (c == b'x') _ _ _ _
            (ap (λ t. (t, true)) (emit_number-emits s arg 16 false false d.width d.left d.pad))
            (if_puts s (c == b'X') _ _ _ _
              (ap (λ t. (t, true)) (emit_number-emits s arg 16 false true d.width d.left d.pad))
              (if_puts s (c == b'o') _ _ _ _
                (ap (λ t. (t, true)) (emit_number-emits s arg 8 false false d.width d.left d.pad))
                (if_puts s (c == b'p') _ _ _ _
                  (ap (λ t. (t, true))
                    (emit_number-emits (sink_putc (sink_putc s b'0') b'x') arg 16 false false 8
                      false b'0'))
                  (if_puts s (c == b'%') _ _ _ _ refl refl))))))))

if_emits :
    (s : Sink) (b : Bool) (c : ℕ) (x x' : Sink) (y y' : List ℕ)
    → x ≡ emits (sink_putc s c) y
    → x' ≡ emits s y'
    → (if not b then x else x') ≡ emits s (if not b then c ∷ y else y')
unfolding emits
if_emits s true c x x' y y' e e' = e'
if_emits s false c x x' y y' e e' = e

-- A round that converts, given what the rounds after it put out.
directive-emits :
    (string_at : ℕ → List ℕ) (d : Directive) (s : Sink) (arg k : ℕ)
    (next : Sink → List ℕ → ℕ → Sink) (text : List ℕ → ℕ → List ℕ) (fmt : List ℕ)
    → ((t : Sink) (rest : List ℕ) (k' : ℕ) → next t rest k' ≡ emits t (text rest k'))
    → (elim fmt [
      | [] ↦ s
      | e ∷ rest ↦
          (let (t, taken) = convert string_at s d e arg in next t rest (if taken then k + 1 else k))
    ])
      ≡ emits s (elim fmt [
        | [] ↦ []
        | e ∷ rest ↦
            (let (out, taken) = conversion string_at d e arg in
              out ++ text rest (if taken then k + 1 else k))
      ])
unfolding emits
directive-emits string_at d s arg k next text [] ih = refl
directive-emits string_at d s arg k next text (e ∷ rest) ih =
    ap (λ z. let (t, taken) = z in next t rest (if taken then k + 1 else k))
      (convert-puts string_at s d e arg)
    ∙ (ih _ rest _
        ∙ sym (
            emits-append s (conversion string_at d e arg).0
              (text rest (if (conversion string_at d e arg).1 then k + 1 else k))))

-- `format` puts out the text of its format.
pub format_loop-emits :
    (string_at : ℕ → List ℕ) (args : ℕ → ℕ) (n : ℕ) (s : Sink) (fmt : List ℕ) (k : ℕ)
    → format_loop string_at args n s fmt k ≡ emits s (format_text string_at args n fmt k)
unfolding format_loop format_text emits
format_loop-emits string_at args zero s fmt k = refl
format_loop-emits string_at args (suc n) s [] k = refl
format_loop-emits string_at args (suc n) s (c ∷ cs) k =
    if_emits s (c == b'%') c _ _ _ _ (format_loop-emits string_at args n (sink_putc s c) cs k) (
      directive-emits string_at (read_directive cs) s (args k) k (format_loop string_at args n)
        (format_text string_at args n) (read_directive cs).rest
        (format_loop-emits string_at args n))
