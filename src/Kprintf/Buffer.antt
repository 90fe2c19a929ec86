-- ===== src/Kprintf/Buffer.antt =====
-- What the console and the buffer hold after a text was put out.
use sifar_os.Common.{
  ℕ, zero, suc, ◌+◌, ◌-◌, ◌%◌, ◌^◌, ◌<◌, ◌≤◌, ◌≡◌, ◌≢◌, refl, sym, ap, ◌∙◌, ◌&&◌, none, some, List,
  [], ◌∷◌, ◌++◌, if◌then◌else◌, leb, ltb, ◌==◌, length, get_or, set, arith, subst, Bool-cases, inl,
  inr, length-set, get_or-set, min,
}
use sifar_os.Kprintf.Sink.{Sink, sink_putc}
use sifar_os.Kprintf.Format.{format, kprintf, kvsnprintf, terminate}
use sifar_os.Kprintf.Text.{emits}
use sifar_os.Kprintf.Whole.{format_text, format_loop-emits}

abbrev to_console : List ℕ → ℕ → Sink
to_console text n = record { buf = none; size = 0; written = n; console = text }

append_assoc : (xs ys : List ℕ) (y : ℕ) → (xs ++ y ∷ []) ++ ys ≡ xs ++ y ∷ ys
append_assoc [] ys y = refl
append_assoc (x ∷ xs) ys y = ap (λ z. x ∷ z) (append_assoc xs ys y)

pub append_nil : (xs : List ℕ) → xs ++ [] ≡ xs
append_nil [] = refl
append_nil (x ∷ xs) = ap (λ z. x ∷ z) (append_nil xs)

emits-console :
    (cs text : List ℕ) (n : ℕ)
    → n + length cs < 2 ^ 32
    → emits (to_console text n) cs ≡ to_console (text ++ cs) (n + length cs)
unfolding emits sink_putc
emits-console [] text n h =
    let e : n ≡ n + 0 = omega arith in
    ap (λ t. to_console t n) (sym (append_nil text)) ∙ ap (to_console (text ++ [])) e
emits-console (c ∷ cs) text n h =
    let e : (n + 1) % 2 ^ 32 ≡ n + 1 = omega arith in
    let k : n + 1 + length cs ≡ n + suc (length cs) = omega arith in
    ap (λ x. emits (to_console (text ++ c ∷ []) x) cs) e
    ∙ (emits-console cs (text ++ c ∷ []) (n + 1) (omega arith)
        ∙ (ap (λ t. to_console t (n + 1 + length cs)) (append_assoc text cs c)
            ∙ ap (to_console (text ++ c ∷ cs)) k))

-- The stores of a text into a buffer.
store_text : List ℕ → ℕ → ℕ → List ℕ → List ℕ
store_text b size n [] = b
store_text b size n (c ∷ cs) =
    store_text (if ltb (n + 1) size then set b n c else b) size (n + 1) cs

abbrev to_buffer : List ℕ → ℕ → ℕ → Sink
to_buffer b size n = record { buf = some b; size = size; written = n; console = [] }

emits-buffer :
    (cs b : List ℕ) (size n : ℕ)
    → n + length cs < 2 ^ 32
    → emits (to_buffer b size n) cs ≡ to_buffer (store_text b size n cs) size (n + length cs)
unfolding emits sink_putc store_text
emits-buffer [] b size n h = let e : n ≡ n + 0 = omega arith in ap (to_buffer b size) e
emits-buffer (c ∷ cs) b size n h =
    let e : (n + 1) % 2 ^ 32 ≡ n + 1 = omega arith in
    let k : n + 1 + length cs ≡ n + suc (length cs) = omega arith in
    ap (λ x. emits (to_buffer (if ltb x size then set b n c else b) size x) cs) e
    ∙ (emits-buffer cs _ size (n + 1) (omega arith) ∙ ap (to_buffer _ size) k)

length-store_text : (cs b : List ℕ) (size n : ℕ) → length (store_text b size n cs) ≡ length b
unfolding store_text
length-store_text [] b size n = refl
length-store_text (c ∷ cs) b size n =
    length-store_text cs _ size (n + 1) ∙ ground (arith, length-set b n c)

get_or_cons :
    (c : ℕ) (cs : List ℕ) (k : ℕ)
    → get_or (c ∷ cs) k 0 ≡ (if k == 0 then c else get_or cs (k - 1) 0)
get_or_cons c cs zero = refl
get_or_cons c cs (suc k) = ground arith

get_or-store_text :
    (cs b : List ℕ) (size n i : ℕ)
    → size ≤ length b
    → get_or (store_text b size n cs) i 0 ≡ (
        if leb n i && (ltb i (n + length cs) && ltb (i + 1) size)
        then get_or cs (i - n) 0
        else get_or b i 0)
unfolding store_text
get_or-store_text [] b size n i h = ground arith
get_or-store_text (c ∷ cs) b size n i h =
    let same : length (if ltb (n + 1) size then set b n c else b) ≡ length b =
      ground (arith, length-set b n c) in
    get_or-store_text cs (if ltb (n + 1) size then set b n c else b) size (n + 1) i
      (omega (arith, same))
    ∙ elim (Bool-cases (ltb (n + 1) size)) [
      | inl room ↦ ground (arith, get_or-set b n i c 0 (ground arith), get_or_cons c cs (i - n))
      | inr full ↦ ground arith
    ]

emits-console_empty :
    (text : List ℕ)
    → length text < 2 ^ 32
    → emits (to_console [] 0) text ≡ to_console text (length text)
emits-console_empty text h =
    let e : 0 + length text ≡ length text = omega arith in
    emits-console text [] 0 (omega arith) ∙ ap (to_console text) e

emits-buffer_start :
    (text b : List ℕ) (size : ℕ)
    → length text < 2 ^ 32
    → emits (to_buffer b size 0) text ≡ to_buffer (store_text b size 0 text) size (length text)
emits-buffer_start text b size h =
    let e : 0 + length text ≡ length text = omega arith in
    emits-buffer text b size 0 (omega arith) ∙ ap (to_buffer _ size) e

-- A format that is not printed in full wraps the counter; this one does not.
abbrev pub TextFits : (ℕ → List ℕ) → List ℕ → (ℕ → ℕ) → Type 0
TextFits string_at fmt args = length (format_text string_at args (length fmt) fmt 0) < 2 ^ 32

-- `kprintf` of a format whose text has less than 2 ^ 32 characters prints that text, which puts together
-- the justified texts of its conversions, and returns its length; a width, an `int`, is taken to wrap
-- where it overflows, and a negative number of characters to fill up is none.
pub kprintf-format_text :
    (string_at : ℕ → List ℕ) (fmt : List ℕ) (args : ℕ → ℕ)
    → TextFits string_at fmt args
    → kprintf string_at fmt args ≡ (
      format_text string_at args (length fmt) fmt 0,
      length (format_text string_at args (length fmt) fmt 0),
    )
unfolding kprintf format
kprintf-format_text string_at fmt args h =
    ap (λ (s : Sink). (s.console, s.written))
      (format_loop-emits string_at args (length fmt) (to_console [] 0) fmt 0
        ∙ emits-console_empty _ h)

-- What a buffer of `size` bytes holds of a text that was printed to it: as much as fits before the
-- NUL that follows it. The result is the length of the whole text.
pub record Prints (buf : List ℕ) (size : ℕ) (text : List ℕ) (r : List ℕ × ℕ) : Type 0 where
  pub result : r.1 ≡ length text
  pub same_length : length r.0 ≡ length buf
  pub bytes :
      (i : ℕ)
      → get_or r.0 i 0 ≡ (
          if ltb 0 size && ltb i (min (length text) (size - 1))
          then get_or text i 0
          else if ltb 0 size && (i == min (length text) (size - 1))
          then 0
          else get_or buf i 0)

stored-Prints :
    (text buf : List ℕ) (size : ℕ)
    → size ≤ length buf
    → Prints buf size text (terminate size (length text) (store_text buf size 0 text), length text)
stored-Prints text buf size b = record {
  result = refl;
  same_length = ground (
    arith,
    length-store_text text buf size 0,
    length-set (store_text buf size 0 text) (min (length text) (size - 1)) 0,
  );
  bytes = λ i. elim (Bool-cases (size == 0)) [
    | inl nowhere ↦ ground (arith, get_or-store_text text buf size 0 i b)
    | inr some_room ↦ ground (
      arith,
      get_or-store_text text buf size 0 i b,
      length-store_text text buf size 0,
      get_or-set (store_text buf size 0 text) (min (length text) (size - 1)) i 0 0
          (omega (arith, length-store_text text buf size 0, positive (ground arith))),
    )
  ];
}
  where
    positive : size ≢ 0 → 0 < size
    positive n = omega arith

-- `kvsnprintf` with a size that the buffer has leaves in it as much as fits, before a NUL, of what
-- `kprintf` prints for the same format and arguments, where that is less than 2 ^ 32 characters; it
-- returns the length of the whole, and the bytes after the NUL are as they were.
pub kvsnprintf-kprintf :
    (string_at : ℕ → List ℕ) (buf : List ℕ) (size : ℕ) (fmt : List ℕ) (args : ℕ → ℕ)
    → TextFits string_at fmt args
    → size ≤ length buf
    → Prints buf size (kprintf string_at fmt args).0 (kvsnprintf string_at buf size fmt args)
unfolding kvsnprintf format
kvsnprintf-kprintf string_at buf size fmt args h b =
    let text : List ℕ = format_text string_at args (length fmt) fmt 0 in
    subst (λ x. Prints buf size x (kvsnprintf string_at buf size fmt args))
      (sym (ap (λ (r : List ℕ × ℕ). r.0) (kprintf-format_text string_at fmt args h)))
      (subst
        (λ (s : Sink).
          Prints buf size text
            (terminate size s.written (elim s.buf [ none ↦ buf | some b ↦ b ]), s.written))
        (sym (
          format_loop-emits string_at args (length fmt) (to_buffer buf size 0) fmt 0
          ∙ emits-buffer_start text buf size h))
        (stored-Prints text buf size b))
