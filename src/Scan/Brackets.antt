-- ===== src/Scan/Brackets.antt =====
-- What well-nested brackets are, independently of the validator: a grammar over what the loop reads, and
-- its recogniser with a stack of brackets.
pub mod Nesting
pub mod Templates
use xeus_cpp.Base.{
  ◌≡◌, refl, arith, not, ◌&&◌, Bool, true, false, List, [], ◌∷◌, ◌++◌, Option, none, some,
  if◌then◌else◌,
}
use xeus_cpp.Token.{TokenKind}

pub data Bracket : Type 0 where
  square paren brace conditional : Bracket

-- What the loop reads: a token of a kind, a directive that begins or ends a conditional, a block comment, or one that
-- the input ends in.
pub data Item : Type 0 where
  of_kind : TokenKind → Item
  if_line endif_line block_comment open_comment : Item

-- The kind of the token that is read last of it; what follows the opening mark of a comment that is not closed is left out.
abbrev pub item_kind : Item → TokenKind
item_kind (of_kind k) = k
item_kind block_comment = TokenKind.r_comment
item_kind open_comment = TokenKind.l_comment
item_kind _ = TokenKind.raw_ident

abbrev pub opener : Bracket → Item
opener square = of_kind TokenKind.l_square
opener paren = of_kind TokenKind.l_paren
opener brace = of_kind TokenKind.l_brace
opener conditional = if_line

abbrev pub closer : Bracket → Item
closer square = of_kind TokenKind.r_square
closer paren = of_kind TokenKind.r_paren
closer brace = of_kind TokenKind.r_brace
closer conditional = endif_line

-- What an item does to the nesting. Nothing is well nested with a stray closing mark of a comment or with a comment that is
-- not closed. The rest are the marks that begin a comment, the hash, and the end of the input.
pub data Role : Type 0 where
  opens closes : Bracket → Role
  neutral stray special : Role

abbrev pub role_of_kind : TokenKind → Role
role_of_kind TokenKind.l_square = opens square
role_of_kind TokenKind.l_paren = opens paren
role_of_kind TokenKind.l_brace = opens brace
role_of_kind TokenKind.r_square = closes square
role_of_kind TokenKind.r_paren = closes paren
role_of_kind TokenKind.r_brace = closes brace
role_of_kind TokenKind.comment = special
role_of_kind TokenKind.l_comment = special
role_of_kind TokenKind.r_comment = stray
role_of_kind TokenKind.hash = special
role_of_kind TokenKind.eof = special
role_of_kind _ = neutral

abbrev pub role : Item → Role
role (of_kind k) = role_of_kind k
role if_line = opens conditional
role endif_line = closes conditional
role block_comment = neutral
role open_comment = stray

-- Well-nested sequences of items.
pub data Balanced : List Item → Type 0 where
  empty : Balanced []
  plain : {k : Item} {rest : List Item} → role k ≡ neutral → Balanced rest → Balanced (k ∷ rest)
  group :
      {ks : List Item} (b : Bracket) (inner rest : List Item)
      → Balanced inner
      → Balanced rest
      → ks ≡ opener b ∷ (inner ++ (closer b ∷ rest))
      → Balanced ks

abbrev pub same : Bracket → Bracket → Bool
same square square = true
same paren paren = true
same brace brace = true
same conditional conditional = true
same _ _ = false

abbrev pub nest : Role → List Bracket → Option (List Bracket)
nest (opens b) st = some (b ∷ st)
nest (closes b) [] = none
nest (closes b) (o ∷ st) = if same b o then some st else none
nest neutral st = some st
nest stray st = none
nest special st = none

abbrev pub nest_all : List Bracket → List Item → Option (List Bracket)
nest_all st [] = some st
nest_all st (k ∷ ks) = elim (nest (role k) st) [ none ↦ none | some st' ↦ nest_all st' ks ]

-- What ends a template: the semicolon of a declaration or the brace of a body, where no bracket is open behind it.
abbrev pub ends_template : Item → Bool
ends_template (of_kind TokenKind.semicolon) = true
ends_template (of_kind TokenKind.r_brace) = true
ends_template _ = false

-- The mark behind an item that leaves the stack `st`.
abbrev pub marked : Bool → Item → List Bracket → Bool
marked m k [] = m && not (ends_template k)
marked m k (b ∷ st) = m

pub marked-plain :
    (m : Bool) (k : Item) (st : List Bracket) → ends_template k ≡ false → marked m k st ≡ m
marked-plain m k [] e = ground arith
marked-plain m k (b ∷ st) e = refl

-- The mark of a template behind a sequence of items that is read with the stack `st`.
abbrev pub mark_all : Bool → List Bracket → List Item → Bool
mark_all m st [] = m
mark_all m st (k ∷ ks) = elim (nest (role k) st) [
  | none ↦ m
  | some st' ↦ mark_all (marked m k st') st' ks
]
