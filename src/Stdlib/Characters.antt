-- ===== src/Stdlib/Characters.antt =====
-- lib/racccoon-libc/src/ctype.c, on the characters that are no negative number.
use racccoon.Base.{
  ℕ, ◌+◌, ◌-◌, ◌≡◌, Bool, false, not, ◌&&◌, ◌||◌, leb, ltb, ◌==◌, if◌then◌else◌, arith,
}

abbrev between : ℕ → ℕ → ℕ → Bool
between a b c = leb a c && leb c b

unfoldable pub isdigit : ℕ → Bool
isdigit c = between b'0' b'9' c

unfoldable pub isupper : ℕ → Bool
isupper c = between b'A' b'Z' c

unfoldable pub islower : ℕ → Bool
islower c = between b'a' b'z' c

unfoldable pub isalpha : ℕ → Bool
unfolding isupper islower
isalpha c = isupper c || islower c

unfoldable pub isalnum : ℕ → Bool
unfolding isalpha isdigit
isalnum c = isalpha c || isdigit c

-- '\t' is 9 and '\r' is 13.
unfoldable pub isspace : ℕ → Bool
isspace c = c == b' ' || between 9 13 c

unfoldable pub isblank : ℕ → Bool
isblank c = c == b' ' || c == 9

unfoldable pub iscntrl : ℕ → Bool
iscntrl c = ltb c 32 || c == 127

unfoldable pub isprint : ℕ → Bool
isprint c = leb 32 c && ltb c 127

unfoldable pub isgraph : ℕ → Bool
isgraph c = ltb 32 c && ltb c 127

unfoldable pub ispunct : ℕ → Bool
unfolding isgraph isalnum
ispunct c = isgraph c && not (isalnum c)

unfoldable pub isxdigit : ℕ → Bool
unfolding isdigit
isxdigit c = isdigit c || between b'a' b'f' c || between b'A' b'F' c

unfoldable pub tolower : ℕ → ℕ
unfolding isupper
tolower c = if isupper c then c + 32 else c

unfoldable pub toupper : ℕ → ℕ
unfolding islower
toupper c = if islower c then c - 32 else c

-- The printing characters are the blank, the letters and digits, and the punctuation, each of them
-- in one class; no printing character is a control character.
pub isprint-classes :
    (c : ℕ)
    → (isprint c ≡ (c == b' ' || isalnum c || ispunct c))
      × ((isalnum c && ispunct c) ≡ false)
      × ((isprint c && iscntrl c) ≡ false)
unfolding isprint isalnum ispunct iscntrl isgraph isalpha isupper islower isdigit
isprint-classes c = (ground arith, ground arith, ground arith)

-- The two case maps undo each other on the letters of the case that they change, and change nothing
-- but letters.
pub toupper-tolower :
    (c : ℕ)
    → toupper (tolower c) ≡ toupper c
      × tolower (toupper c) ≡ tolower c
      × isalpha (tolower c) ≡ isalpha c
      × isupper (tolower c) ≡ false
unfolding toupper tolower isalpha isupper islower
toupper-tolower c = (ground arith, ground arith, ground arith, ground arith)
