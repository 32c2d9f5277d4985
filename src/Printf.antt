-- ===== src/Printf.antt =====
-- The formatter of lib/racccoon-libc/src/printf.c. The sink is a parameter: `emit` is the callback
-- of `struct out` and `len` its count. A floating-point conversion is a parameter as well. An
-- argument whose type is not the one that the conversion reads is undefined, which is `none`.
pub mod Bounded
use racccoon.Base.{
  ℕ, zero, suc, ◌+◌, ◌-◌, ◌*◌, ◌%◌, ◌^◌, min, Bool, true, false, not, ◌&&◌, ◌||◌, List, [], ◌∷◌,
  ◌++◌, Option, none, some, leb, ltb, ◌==◌, if◌then◌else◌, length, take, replicate,
}
use racccoon.Base.Int.{ℤ, pos, negsuc}
use racccoon.Stdlib.Numbers.{Bytes, utoa}

-- F_MINUS, F_PLUS, F_SPACE, F_HASH and F_ZERO
pub record Flags : Type 0 where
  pub minus : Bool
  pub plus : Bool
  pub space : Bool
  pub hash : Bool
  pub zeros : Bool

abbrev pub no_flags : Flags
no_flags = record { minus = false; plus = false; space = false; hash = false; zeros = false }

pub data Arg : Type 0 where
  signed : ℤ → Arg
  unsigned : ℕ → Arg
  pointer : ℕ → Arg
  string : Option Bytes → Arg
  double : ℕ → Arg

-- `for (;; f++) { if (*f == '-') … }`
pub parse_flags : Flags → Bytes → Flags × Bytes
parse_flags fl [] = (fl, [])
parse_flags fl (c ∷ f) =
    let minus = parse_flags (record fl { minus = true }) f in
    let plus = parse_flags (record fl { plus = true }) f in
    let space = parse_flags (record fl { space = true }) f in
    let hash = parse_flags (record fl { hash = true }) f in
    let zeros = parse_flags (record fl { zeros = true }) f in
    if c == b'-'
    then minus
    else if c == b'+'
    then plus
    else if c == b' '
    then space
    else if c == b'#'
    then hash
    else if c == b'0'
    then zeros
    else (fl, c ∷ f)

-- `while (*f >= '0' && *f <= '9') width = width * 10 + (*f++ - '0');`
pub parse_number : ℕ → Bytes → ℕ × Bytes
parse_number n [] = (n, [])
parse_number n (c ∷ f) =
    let rest = parse_number (n * 10 + (c - b'0')) f in
    if leb b'0' c && leb c b'9' then rest else (n, c ∷ f)

-- The length modifiers: how many l there are, and whether there is an L.
pub parse_length : ℕ → Bool → Bytes → ℕ × Bool × Bytes
parse_length lng ldbl [] = (lng, ldbl, [])
parse_length lng ldbl (c ∷ f) =
    let l = parse_length (lng + 1) ldbl f in
    let h = parse_length lng ldbl f in
    let z = parse_length 1 ldbl f in
    let big = parse_length lng true f in
    if c == b'l'
    then l
    else if c == b'h'
    then h
    else if c == b'z' || c == b't' || c == b'j'
    then z
    else if c == b'L'
    then big
    else (lng, ldbl, c ∷ f)

-- What stands before a conversion, and what is left of the arguments.
pub record Spec : Type 0 where
  pub flags : Flags
  pub width : ℕ
  pub prec : Option ℕ
  pub lng : ℕ
  pub rest : Bytes
  pub args : List Arg

-- The width: `*` takes an `int`, and a negative one stands for the flag `-`.
abbrev pub star_width : Flags → Bytes → List Arg → Option (Flags × ℕ × Bytes × List Arg)
star_width fl f (signed (pos n) ∷ args) = some (fl, n, f, args)
star_width fl f (signed (negsuc n) ∷ args) = some (record fl { minus = true }, suc n, f, args)
star_width fl f _ = none

pub parse_width : Flags → Bytes → List Arg → Option (Flags × ℕ × Bytes × List Arg)
unfolding parse_number
parse_width fl [] args = some (fl, 0, [], args)
parse_width fl (c ∷ f) args =
    let (n, g) = parse_number 0 (c ∷ f) in
    if c == b'*' then star_width fl f args else some (fl, n, g, args)

-- The precision: none is -1, also where `*` takes a negative one.
abbrev pub star_prec : Bytes → List Arg → Option (Option ℕ × Bytes × List Arg)
star_prec f (signed (pos n) ∷ args) = some (some n, f, args)
star_prec f (signed (negsuc n) ∷ args) = some (none, f, args)
star_prec f _ = none

pub parse_prec : Bytes → List Arg → Option (Option ℕ × Bytes × List Arg)
unfolding parse_number
parse_prec [] args = some (none, [], args)
parse_prec (d ∷ []) args = if d == b'.' then some (some 0, [], args) else some (none, d ∷ [], args)
parse_prec (d ∷ c ∷ f) args =
    let (n, g) = parse_number 0 (c ∷ f) in
    if d == b'.'
    then (if c == b'*' then star_prec f args else some (some n, g, args))
    else some (none, d ∷ c ∷ f, args)

pub parse_spec : Bytes → List Arg → Option Spec
unfolding parse_flags parse_width parse_prec parse_length
parse_spec f args =
    let (fl₀, f₁) = parse_flags no_flags f in
    elim (parse_width fl₀ f₁ args) [
      | none ↦ none
      | some (fl, width, f₂, args₁) ↦ elim (parse_prec f₂ args₁) [
        | none ↦ none
        | some (prec, f₃, args₂) ↦
            let (lng, ldbl, f₄) = parse_length 0 false f₃ in
            some (record {
              flags = fl;
              width = width;
              prec = prec;
              lng = lng;
              rest = f₄;
              args = args₂;
            })
      ]
    ]

module _ {O : Type 0} (emit : O → Bytes → O) where
  -- pad, in pieces of 16 bytes at most; a negative count is 0. The fuel is the count.
  pub pad_loop : ℕ → O → ℕ → ℕ → O
  pad_loop zero o c n = o
  pad_loop (suc f) o c n =
      let k = min n 16 in
      let rest = pad_loop f (emit o (replicate k c)) c (n - k) in if n == 0 then o else rest

  pub pad : O → ℕ → ℕ → O
  unfolding pad_loop
  pad o c n = pad_loop n o c n

  abbrev pub sign_bytes : Bool → Flags → Bytes
  sign_bytes neg fl =
      if neg then b'-' ∷ [] else if fl.plus then b'+' ∷ [] else if fl.space then b' ' ∷ [] else []

  -- The zeros of put_number, between the prefix and the digits.
  abbrev pub count_zeros : ℕ → Option ℕ → ℕ → Flags → ℕ → ℕ
  count_zeros dlen (some p) others fl width = p - dlen
  count_zeros dlen none others fl width =
      if fl.zeros && not fl.minus then width - dlen - others else 0

  abbrev pub emit_some : O → Bytes → O
  emit_some o [] = o
  emit_some o (c ∷ s) = emit o (c ∷ s)

  -- put_number; `prefix` is empty where the source has NULL.
  pub put_number : O → Bytes → Bool → Bytes → Flags → ℕ → Option ℕ → O
  unfolding pad
  put_number o digits neg prefix fl width prec =
      let sign = sign_bytes neg fl in
      let dlen = length digits in
      let others = length prefix + length sign in
      let zeros = count_zeros dlen prec others fl width in
      let space = width - (others + zeros + dlen) in
      let o₁ = if fl.minus then o else pad o b' ' space in
      let o₂ = emit_some (emit_some o₁ sign) prefix in
      let o₃ = emit (pad o₂ b'0' zeros) digits in if fl.minus then pad o₃ b' ' space else o₃

  abbrev pub upto : Option ℕ → Bytes → Bytes
  upto none s = s
  upto (some p) s = take p s

  abbrev pub or_null : Option Bytes → Bytes
  or_null none = b'(' ∷ b'n' ∷ b'u' ∷ b'l' ∷ b'l' ∷ b')' ∷ []
  or_null (some s) = s

  -- put_str, and the conversion c, which is put_str of one byte
  pub put_bytes : O → Bytes → Flags → ℕ → O
  unfolding pad
  put_bytes o s fl width =
      let space = width - length s in
      if fl.minus then pad (emit o s) b' ' space else emit (pad o b' ' space) s

  pub put_str : O → Option Bytes → Flags → ℕ → Option ℕ → O
  unfolding put_bytes
  put_str o s fl width prec = put_bytes o (upto prec (or_null s)) fl width

  module _ (len : O → ℕ) (put_float : O → ℕ → ℕ → Flags → ℕ → Option ℕ → O) where
    -- The output, the arguments that are left, and the counts that `%n` stored.
    pub record Printer : Type 0 where
      pub out : O
      pub args : List Arg
      pub counts : List ℕ

    abbrev pub put_signed : O → Spec → ℤ → O
    put_signed o sp (pos n) = put_number o (utoa n 10 0) false [] sp.flags sp.width sp.prec
    put_signed o sp (negsuc n) = put_number o (utoa (suc n) 10 0) true [] sp.flags sp.width sp.prec

    abbrev pub base_of : ℕ → ℕ
    base_of c = if c == b'o' then 8 else if c == b'u' then 10 else 16

    abbrev pub prefix_of : ℕ → Flags → ℕ → Bytes
    prefix_of c fl v =
        if fl.hash && not (v == 0)
        then if c == b'x'
          then b'0' ∷ b'x' ∷ []
          else if c == b'X'
          then b'0' ∷ b'X' ∷ []
          else if c == b'o'
          then b'0' ∷ []
          else []
        else []

    -- A conversion that takes an argument.
    pub convert_arg : Printer → Spec → ℕ → Arg → List Arg → Option Printer
    unfolding put_number put_str
    convert_arg p sp c (signed v) args =
        if c == b'd' || c == b'i'
        then some (record p { out = put_signed p.out sp v; args = args })
        else if c == b'c'
        then some
            (record p { out = put_bytes p.out (char_of v ∷ []) sp.flags sp.width; args = args })
        else none
      where
        char_of : ℤ → ℕ
        char_of (pos n) = n % 256
        char_of (negsuc n) = 255 - n % 256
    convert_arg p sp c (unsigned v) args =
        if c == b'u' || c == b'o' || c == b'x' || c == b'X'
        then some (record p {
          out =
              put_number p.out (utoa v (base_of c) (if c == b'X' then 1 else 0)) false
                (prefix_of c sp.flags v) sp.flags sp.width sp.prec;
          args = args;
        })
        else none
    convert_arg p sp c (pointer v) args =
        if c == b'p'
        then some (record p {
          out = put_number p.out (utoa v 16 0) false (b'0' ∷ b'x' ∷ []) sp.flags sp.width sp.prec;
          args = args;
        })
        else if c == b'n'
        then some (record p { args = args; counts = len p.out ∷ p.counts })
        else none
    convert_arg p sp c (string s) args =
        if c == b's'
        then some (record p { out = put_str p.out s sp.flags sp.width sp.prec; args = args })
        else none
    convert_arg p sp c (double v) args =
        if leb b'e' c && leb c b'g' || leb b'E' c && leb c b'G' || c == b'a' || c == b'A'
        then some (record p { out = put_float p.out v c sp.flags sp.width sp.prec; args = args })
        else none

    abbrev pub takes_arg : ℕ → Bool
    takes_arg c =
        c == b'd'
        || c == b'i'
        || c == b'c'
        || c == b'u'
        || c == b'o'
        || c == b'x'
        || c == b'X'
        || c == b'p'
        || c == b'n'
        || c == b's'
        || leb b'e' c && leb c b'g'
        || leb b'E' c && leb c b'G'
        || c == b'a'
        || c == b'A'

    abbrev pub with_arg : Printer → Spec → ℕ → List Arg → Option Printer
    unfolding convert_arg
    with_arg p sp c [] = none
    with_arg p sp c (a ∷ args) = convert_arg p sp c a args

    pub convert : Printer → Spec → ℕ → Option Printer
    unfolding convert_arg
    convert p sp c =
        if takes_arg c
        then with_arg p sp c sp.args
        else if c == b'%'
        then some (record p { out = emit p.out (b'%' ∷ []); args = sp.args })
        else some (record p { out = emit (emit p.out (b'%' ∷ [])) (c ∷ []); args = sp.args })

    -- The loop of vformat. A format that ends within a conversion is done. The fuel is the length of
    -- the format, of which a round takes at least one byte away.
    pub vformat_loop : ℕ → Bytes → Printer → Option Printer
    unfolding parse_spec convert
    vformat_loop zero f p = some p
    vformat_loop (suc n) [] p = some p
    vformat_loop (suc n) (c ∷ f) p =
        let plain = vformat_loop n f (record p { out = emit p.out (c ∷ []) }) in
        if not (c == b'%') then plain else elim (parse_spec f p.args) [
          | none ↦ none
          | some sp ↦ elim sp.rest [
            | [] ↦ some p
            | d ∷ g ↦ elim (convert p sp d) [ none ↦ none | some p' ↦ vformat_loop n g p' ]
          ]
        ]

    -- vformat: the output and the result
    pub vformat : O → Bytes → List Arg → Option (O × ℕ)
    unfolding vformat_loop
    vformat o fmt args =
        elim (vformat_loop (length fmt) fmt (record { out = o; args = args; counts = [] })) [
          | none ↦ none
          | some p ↦ some (p.out, len p.out)
        ]
