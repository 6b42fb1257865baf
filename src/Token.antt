-- ===== src/Token.antt =====
-- Token kinds and tokens: `token_kind`, `as_int` and `class token` of src/xinput_validator.hpp and
-- src/xinput_validator.cpp. A pointer into the source buffer is the list of bytes from the place
-- that it points to, up to and with the terminating zero.
use xeus_cpp.Base.{
  ℕ, ◌+◌, Bool, true, ◌&&◌, ◌||◌, List, [], ◌∷◌, ◌≡◌, ◌↔◌, refl, sym, ap, ◌∙◌, ◌==◌, ==_iff, Bytes,
  take, get_or,
}

pub data TokenKind : Type 0 where
  l_square r_square l_paren r_paren l_brace r_brace stringlit charlit comma dot : TokenKind
  excl_mark quest_mark slash backslash less greater ampersand hash ident raw_ident : TokenKind
  comment l_comment r_comment space constant at asterik semicolon eof unknown : TokenKind

unfoldable pub as_int : TokenKind → ℕ
as_int l_square = 0
as_int r_square = 1
as_int l_paren = 2
as_int r_paren = 3
as_int l_brace = 4
as_int r_brace = 5
as_int stringlit = 6
as_int charlit = 7
as_int comma = 8
as_int dot = 9
as_int excl_mark = 10
as_int quest_mark = 11
as_int slash = 12
as_int backslash = 13
as_int less = 14
as_int greater = 15
as_int ampersand = 16
as_int hash = 17
as_int ident = 18
as_int raw_ident = 19
as_int comment = 20
as_int l_comment = 21
as_int r_comment = 22
as_int space = 23
as_int constant = 24
as_int at = 25
as_int asterik = 26
as_int semicolon = 27
as_int eof = 28
as_int unknown = 29

abbrev kinds : List TokenKind
kinds =
    l_square ∷ r_square ∷ l_paren ∷ r_paren ∷ l_brace ∷ r_brace ∷ stringlit ∷ charlit ∷ comma ∷ dot
    ∷ excl_mark ∷ quest_mark ∷ slash ∷ backslash ∷ less ∷ greater ∷ ampersand ∷ hash ∷ ident
    ∷ raw_ident ∷ comment ∷ l_comment ∷ r_comment ∷ space ∷ constant ∷ at ∷ asterik ∷ semicolon
    ∷ eof ∷ unknown ∷ []

-- `static_cast<token_kind>(n)`, at the values that `as_int` takes.
unfoldable pub kind_of_int : ℕ → TokenKind
kind_of_int n = get_or kinds n unknown

pub kind_of_int-as_int : (k : TokenKind) → kind_of_int (as_int k) ≡ k
unfolding kind_of_int as_int
kind_of_int-as_int l_square = refl
kind_of_int-as_int _ = refl

-- `==` on kinds.
unfoldable pub is_kind : TokenKind → TokenKind → Bool
unfolding as_int
is_kind a b = as_int a == as_int b

pub is_kind_iff : (a b : TokenKind) → (is_kind a b ≡ true) ↔ (a ≡ b)
unfolding is_kind
is_kind_iff a b = (
  λ h.
      sym (kind_of_int-as_int a)
      ∙ ap kind_of_int ((==_iff (as_int a) (as_int b)).0 h)
      ∙ kind_of_int-as_int b,
  λ e. (==_iff (as_int a) (as_int b)).1 (ap as_int e),
)

pub record Token : Type 0 where
  pub kind : TokenKind
  pub buffer : Bytes
  pub length : ℕ

abbrev pub token : TokenKind → Bytes → ℕ → Token
token k p n = record { kind = k; buffer = p; length = n }

-- The token that the constructor makes with no argument.
abbrev pub no_token : Token
no_token = token unknown [] 0

unfoldable pub identifier : Token → Bytes
identifier t = take t.length t.buffer

unfoldable pub closes_brace : Token → TokenKind → Bool
closes_brace t k =
    (is_kind t.kind r_square || is_kind t.kind r_paren || is_kind t.kind r_brace)
    && as_int t.kind == as_int k + 1
