-- ===== src/Completion/Range.antt =====
-- The range of the code that a completion replaces.
use xeus_cpp.Base.{
  c_string, ℕ, suc, ◌+◌, ◌≤◌, ◌≡◌, ◌≢◌, refl, sym, ap, ◌∙◌, Bool, true, false, List, [], ◌∷◌, ◌++◌,
  some, arith, Bytes, length, take, contains, append_assoc, length-append, is_empty, leb,
}
use xeus_cpp.Base.Int.{ℤ, pos, sub_ℕ}
use xeus_cpp.Parser.Split.{
  last_piece, Avoids, Boundary, last_piece-Boundary, last_piece-Boundary_closed,
}
use xeus_cpp.Parser.{pieces, split_line, all_escape, escapes_itself}
use xeus_cpp.Completion.{CompleteReply, delims, complete_request}

abbrev pub is_delim : ℕ → Bool
is_delim = contains delims

-- A word: no delimiter and no zero in it.
abbrev pub IsWord : Bytes → Type 0
IsWord [] = Unit
IsWord (c ∷ w) = (is_delim c ≡ false) × (c ≢ 0) × IsWord w

IsWord-Avoids : (w : Bytes) → IsWord w → Avoids is_delim w
IsWord-Avoids [] h = tt
IsWord-Avoids (c ∷ w) h = (h.0, IsWord-Avoids w h.2)

c_string-IsWord : (w p : Bytes) → IsWord w → c_string (w ++ (0 ∷ p)) ≡ w
c_string-IsWord [] p h = refl
c_string-IsWord (c ∷ w) p h = ground (arith, c_string-IsWord w p h.2)

c_string-word : (w : Bytes) → IsWord w → c_string w ≡ w
c_string-word [] h = refl
c_string-word (c ∷ w) h = ground (arith, c_string-word w h.2)

delims-all_escape : all_escape delims ≡ true
unfolding delims escapes_itself
delims-all_escape = refl

complete_reply : (Bytes → ℕ → ℕ → List Bytes) → Bytes → ℕ → Bytes → CompleteReply
complete_reply engine code cursor last = record {
  matches = engine (c_string code) 1 (cursor + 1);
  cursor_start = sub_ℕ cursor (length (c_string last));
  cursor_end = cursor;
}

leb-true : (a b : ℕ) → a ≤ b → leb a b ≡ true
leb-true a b h = ground arith

split_by :
    (code range : Bytes) (cursor : ℕ)
    → cursor ≤ length code
    → take (suc cursor) (code ++ 0 ∷ []) ≡ range
    → split_line code delims cursor ≡ some (pieces is_delim [] range)
unfolding split_line
split_by code range cursor m e =
    rw (delims-all_escape, leb-true cursor (length code) m)
      (ap (λ r. some (pieces is_delim [] r)) e)

-- The reply by the last piece of the range.
complete_by :
    (engine : Bytes → ℕ → ℕ → List Bytes) (code range last : Bytes) (cursor : ℕ)
    → cursor ≤ length code
    → take (suc cursor) (code ++ 0 ∷ []) ≡ range
    → last_piece (pieces is_delim [] range) ≡ some last
    → complete_request engine code cursor ≡ some (complete_reply engine code cursor last)
unfolding complete_request complete_reply
complete_by engine code range last cursor m e l = ground (arith, split_by code range cursor m e)

reply_of :
    (engine : Bytes → ℕ → ℕ → List Bytes) (code last : Bytes) (cursor k : ℕ) {z : ℤ}
    → length (c_string last) ≡ k
    → sub_ℕ cursor k ≡ z
    → some (complete_reply engine code cursor last)
      ≡ some (record {
        matches = engine (c_string code) 1 (cursor + 1);
        cursor_start = z;
        cursor_end = cursor;
      })
unfolding complete_reply
reply_of engine code last cursor k e f = ground arith

-- The bytes up to and with the one at the cursor.
take-at :
    (p : Bytes) (c : ℕ) (rest : Bytes) → take (suc (length p)) (p ++ (c ∷ rest)) ≡ p ++ (c ∷ [])
take-at [] c rest = refl
take-at (x ∷ p) c rest = ap (◌∷◌ x) (take-at p c rest)

range_at :
    (pre w : Bytes) (c : ℕ) (rest : Bytes)
    → take (suc (length pre + length w)) ((pre ++ (w ++ (c ∷ rest))) ++ 0 ∷ [])
      ≡ pre ++ (w ++ (c ∷ []))
range_at pre w c rest =
    ap (λ n. take (suc n) ((pre ++ (w ++ (c ∷ rest))) ++ 0 ∷ [])) (sym (length-append pre w))
    ∙ ap (take (suc (length (pre ++ w)))) (simp append_assoc)
    ∙ take-at (pre ++ w) c (rest ++ 0 ∷ [])
    ∙ append_assoc pre w (c ∷ [])

end_range :
    (pre w : Bytes)
    → take (suc (length pre + length w)) ((pre ++ w) ++ 0 ∷ []) ≡ pre ++ (w ++ (0 ∷ []))
end_range pre w =
    ap (λ n. take (suc n) ((pre ++ w) ++ 0 ∷ [])) (sym (length-append pre w))
    ∙ take-at (pre ++ w) 0 []
    ∙ append_assoc pre w (0 ∷ [])

zero_no_delim : is_delim 0 ≡ false
unfolding delims
zero_no_delim = refl

Avoids-snoc : (w : Bytes) (c : ℕ) → IsWord w → is_delim c ≡ false → Avoids is_delim (w ++ (c ∷ []))
Avoids-snoc [] c h n = (n, tt)
Avoids-snoc (x ∷ w) c h n = (h.0, Avoids-snoc w c h.2 n)

IsWord-snoc : (w : Bytes) (c : ℕ) → IsWord w → is_delim c ≡ false → c ≢ 0 → IsWord (w ++ (c ∷ []))
IsWord-snoc [] c h m n = (m, n, tt)
IsWord-snoc (x ∷ w) c h m n = (h.0, h.1, IsWord-snoc w c h.2 m n)

within :
    (pre w : Bytes) (c : ℕ) (rest : Bytes)
    → length pre + length w ≤ length (pre ++ (w ++ (c ∷ rest)))
within pre w c rest = omega (arith, length-append pre (w ++ (c ∷ rest)), length-append w (c ∷ rest))

snoc-nonempty : (w : Bytes) (c : ℕ) → is_empty (w ++ (c ∷ [])) ≡ false
snoc-nonempty [] c = refl
snoc-nonempty (x ∷ w) c = refl

-- With the cursor at the end of the code, behind a word `w`, the completion replaces exactly `w`: the
-- range begins where `w` begins, behind a delimiter or at the start of the code, and ends at the cursor.
pub complete_request-end :
    (engine : Bytes → ℕ → ℕ → List Bytes) (pre w : Bytes)
    → Boundary is_delim pre
    → IsWord w
    → complete_request engine (pre ++ w) (length pre + length w)
      ≡ some (record {
        matches = engine (c_string (pre ++ w)) 1 (length pre + length w + 1);
        cursor_start = pos (length pre);
        cursor_end = length pre + length w;
      })
complete_request-end engine pre w b h =
    complete_by engine (pre ++ w) (pre ++ (w ++ (0 ∷ []))) (w ++ (0 ∷ [])) (length pre + length w)
      (omega (arith, length-append pre w)) (end_range pre w)
      (last_piece-Boundary is_delim (w ++ (0 ∷ [])) b (Avoids-snoc w 0 h zero_no_delim)
        (snoc-nonempty w 0))
    ∙ reply_of engine (pre ++ w) (w ++ (0 ∷ [])) (length pre + length w) (length w)
        (ap length (c_string-IsWord w [] h)) (ground arith)

-- With the cursor on a delimiter in the code, behind a word `w`, the completion replaces exactly `w`: the range
-- begins where `w` begins, behind a delimiter or at the start of the code, and ends at the cursor.
pub complete_request-delim :
    (engine : Bytes → ℕ → ℕ → List Bytes) (pre w : Bytes) (d : ℕ) (rest : Bytes)
    → Boundary is_delim pre
    → IsWord w
    → is_delim d ≡ true
    → complete_request engine (pre ++ (w ++ (d ∷ rest))) (length pre + length w)
      ≡ some (record {
        matches = engine (c_string (pre ++ (w ++ (d ∷ rest)))) 1 (length pre + length w + 1);
        cursor_start = pos (length pre);
        cursor_end = length pre + length w;
      })
complete_request-delim engine pre w d rest b h m =
    complete_by engine (pre ++ (w ++ (d ∷ rest))) (pre ++ (w ++ (d ∷ []))) w (length pre + length w)
      (omega (arith, within pre w d rest)) (range_at pre w d rest)
      (last_piece-Boundary_closed is_delim w d b (IsWord-Avoids w h) m)
    ∙ reply_of engine (pre ++ (w ++ (d ∷ rest))) w (length pre + length w) (length w)
        (ap length (c_string-word w h)) (ground arith)

-- With the cursor inside a word, before the byte `c` of it, the range begins one byte before the word:
-- at its start that is the delimiter in front of it, and -1 at the start of the code.
pub complete_request-inside :
    (engine : Bytes → ℕ → ℕ → List Bytes) (pre w : Bytes) (c : ℕ) (rest : Bytes)
    → Boundary is_delim pre
    → IsWord w
    → is_delim c ≡ false
    → c ≢ 0
    → complete_request engine (pre ++ (w ++ (c ∷ rest))) (length pre + length w)
      ≡ some (record {
        matches = engine (c_string (pre ++ (w ++ (c ∷ rest)))) 1 (length pre + length w + 1);
        cursor_start = sub_ℕ (length pre) 1;
        cursor_end = length pre + length w;
      })
complete_request-inside engine pre w c rest b h m n =
    complete_by engine (pre ++ (w ++ (c ∷ rest))) (pre ++ (w ++ (c ∷ []))) (w ++ (c ∷ []))
      (length pre + length w) (omega (arith, within pre w c rest)) (range_at pre w c rest)
      (last_piece-Boundary is_delim (w ++ (c ∷ [])) b (Avoids-snoc w c h m) (snoc-nonempty w c))
    ∙ reply_of engine (pre ++ (w ++ (c ∷ rest))) (w ++ (c ∷ [])) (length pre + length w)
        (length w + 1)
        (ap length (c_string-word (w ++ (c ∷ [])) (IsWord-snoc w c h m n))
          ∙ length-append w (c ∷ []))
        (ground arith)
