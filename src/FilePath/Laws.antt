-- ===== src/FilePath/Laws.antt =====
-- Parsing and printing of paths (src/htmpfs/path_t.cpp).
use htmpfs.Prelude.{
  ◌≡◌, refl, sym, ap, ◌∙◌, Bool, true, false, List, [], ◌∷◌, ◌++◌, append-nil, append_assoc, arith,
  ◌==◌, pop_back, last_or, Bool-cases, inl, inr, ◌&&◌, not,
}
use htmpfs.Prelude.Bytes.{Bytes}
use htmpfs.FilePath.{FilePath, slash, is_empty, finish, parse_loop, new, to_string, pop_end}

-- No byte is a slash.
abbrev pub no_slash : Bytes → Bool
no_slash [] = true
no_slash (b ∷ bs) = not (b == slash) && no_slash bs

-- Every component is non-empty and free of slashes.
abbrev pub Components : List Bytes → Type 0
Components [] = Unit {0}
Components (c ∷ cs) = (is_empty c ≡ false) × (no_slash c ≡ true) × Components cs

-- An empty component for the root, then proper components.
abbrev pub IsCanonical : FilePath → Type 0
IsCanonical [] = ⊥
IsCanonical (c ∷ cs) = (c ≡ []) × Components cs

no_slash-append : (a b : Bytes) → no_slash a ≡ true → no_slash b ≡ true → no_slash (a ++ b) ≡ true
no_slash-append [] b h k = k
no_slash-append (x ∷ a) b h k = ground (arith, no_slash-append a b)

Components-append :
    (cs : List Bytes) (c : Bytes)
    → Components cs
    → is_empty c ≡ false
    → no_slash c ≡ true
    → Components (cs ++ c ∷ [])
Components-append [] c h e n = (e, n, tt)
Components-append (x ∷ cs) c (e', n', h) e n = (e', n', Components-append cs c h e n)

finish-IsCanonical :
    (cur : Bytes) (p : FilePath) → no_slash cur ≡ true → IsCanonical p → IsCanonical (finish cur p)
unfolding finish
finish-IsCanonical [] p n h = h
finish-IsCanonical (b ∷ bs) [] n h = absurd h
finish-IsCanonical (b ∷ bs) (c ∷ cs) n (e, h) = (e, Components-append cs (b ∷ bs) h refl n)

parse_loop-IsCanonical :
    (s cur : Bytes) (p : FilePath)
    → no_slash cur ≡ true
    → IsCanonical p
    → IsCanonical (parse_loop s cur p)
unfolding parse_loop
parse_loop-IsCanonical [] cur p n h = finish-IsCanonical cur p n h
parse_loop-IsCanonical (i ∷ rest) cur p n h = elim (Bool-cases (i == slash)) [
  | inl sep ↦
      rw sep (parse_loop-IsCanonical rest [] (finish cur p) refl (finish-IsCanonical cur p n h))
  | inr other ↦ rw other (
      parse_loop-IsCanonical rest (cur ++ i ∷ []) p (no_slash-append cur (i ∷ []) n (ground arith))
        h)
]

-- Whatever the text, the parsed path is the root's empty component followed by components that
-- are neither empty nor hold a slash.
pub new-IsCanonical : (s : Bytes) → IsCanonical (new s)
unfolding new
new-IsCanonical s = parse_loop-IsCanonical s [] ([] ∷ []) refl (refl, tt)

pub parse_loop-append :
    (c rest cur : Bytes) (p : FilePath)
    → no_slash c ≡ true
    → parse_loop (c ++ rest) cur p ≡ parse_loop rest (cur ++ c) p
unfolding parse_loop
parse_loop-append [] rest cur p n = ap (λ l. parse_loop rest l p) (sym (append-nil cur))
parse_loop-append (b ∷ c) rest cur p n =
    let other : (b == slash) ≡ false = ground arith in
    rw (other, parse_loop)
      (parse_loop-append c rest (cur ++ b ∷ []) p (ground arith)
        ∙ ap (λ l. parse_loop rest l p) (append_assoc cur (b ∷ []) c))

parse_loop-to_string :
    (cs : List Bytes) (cur : Bytes) (p : FilePath)
    → Components cs
    → parse_loop (to_string cs) cur p ≡ finish cur p ++ cs
unfolding to_string parse_loop
parse_loop-to_string [] cur p h = sym (append-nil (finish cur p))
parse_loop-to_string ([] ∷ cs) cur p h = absurd (ground arith)
parse_loop-to_string ((b ∷ c) ∷ cs) cur p (e, n, h) =
    parse_loop-append (b ∷ c) (to_string cs) [] (finish cur p) n
    ∙ parse_loop-to_string cs (b ∷ c) (finish cur p) h
    ∙ append_assoc (finish cur p) ((b ∷ c) ∷ []) cs

-- Parsing what `to_string` prints of a canonical path gives the path back.
pub new-to_string : (p : FilePath) → IsCanonical p → new (to_string p) ≡ p
unfolding new to_string
new-to_string [] h = absurd h
new-to_string (c ∷ cs) (e, h) = rw e (parse_loop-to_string cs [] ([] ∷ []) h)

-- Printing a parsed path loses nothing: parsed again, it has the same components.
pub new-to_string-new : (s : Bytes) → new (to_string (new s)) ≡ new s
new-to_string-new s = new-to_string (new s) (new-IsCanonical s)

pop_back-append-last :
    (c : Bytes) (cs : List Bytes) → pop_back (c ∷ cs) ++ last_or (c ∷ cs) [] ∷ [] ≡ c ∷ cs
pop_back-append-last c [] = refl
pop_back-append-last c (d ∷ cs) = ap (c ∷◌) (pop_back-append-last d cs)

Components-pop_back :
    (c : Bytes) (cs : List Bytes) → Components (c ∷ cs) → Components (pop_back (c ∷ cs))
Components-pop_back c [] h = tt
Components-pop_back c (d ∷ cs) (e, n, h) = (e, n, Components-pop_back d cs h)

pub last-proper :
    (c : Bytes) (cs : List Bytes) → Components (c ∷ cs) → is_empty (last_or (c ∷ cs) []) ≡ false
last-proper c [] (e, n, h) = e
last-proper c (d ∷ cs) (e, n, h) = last-proper d cs h

-- `pop_end` takes the last component off: name and rest together are the path again, and the rest
-- of a path below the root is canonical, so the parent that it prints parses to that rest.
pub pop_end-new :
    (s : Bytes) (c : Bytes) (cs : List Bytes)
    → new s ≡ [] ∷ c ∷ cs
    → let (name, parent) = pop_end (new s) in
      (parent ++ name ∷ [] ≡ new s) × (is_empty name ≡ false) × (new (to_string parent) ≡ parent)
unfolding pop_end
pop_end-new s c cs e =
    let (root, proper) = (let h : IsCanonical ([] ∷ c ∷ cs) = rw e at (new-IsCanonical s) in h) in
    rw e (
      pop_back-append-last [] (c ∷ cs),
      last-proper c cs proper,
      new-to_string ([] ∷ pop_back (c ∷ cs)) (refl, Components-pop_back c cs proper),
    )
