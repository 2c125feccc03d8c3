-- ===== src/Keys/Prefix.antt =====
-- `prefixEnd` bounds exactly the keys that share a prefix.
use native.Mathlib.Decide.{dec_lt}
use mathlib.Core.Option
use mathlib.Core.List.{
  reverse, reverse-reverse, reverse-append, reverse-cons, reverse-cons, append_assoc, append-nil,
}
use phaselock.Prelude.{
  ℕ, ◌+◌, ◌-◌, ◌*◌, ◌/◌, ◌%◌, ◌≤◌, ◌<◌, ◌≡◌, ◌≢◌, refl, sym, Ordering, List, [], ◌∷◌, ◌++◌, arith,
  All, is_neg, Bool, true, false, not, ◌&&◌, Option, none, some, ltb, ◌==◌, if◌then◌else◌,
  All-append, some_inj,
}
use phaselock.Keys.{
  Key, from_code_point, next_code_point, strip_max, increment_last, prefix_end, starts_with,
  compare_keys,
}
use phaselock.Keys.Order.{lex, IsKey}
use phaselock.Keys.CodePoints.{
  IsScalar, encode, encode-IsKey, compare_keys-encode, starts_with-encode,
}

-- The same on code points, from the first one on: the last one that has a successor is replaced.
abbrev end_after : ℕ → Option (List ℕ) → Option (List ℕ)
end_after c (some e) = some (c ∷ e)
end_after c none = if c == 1114111 then none else some (next_code_point c ∷ [])

abbrev end_points : List ℕ → Option (List ℕ)
end_points [] = none
end_points (c ∷ cs) = end_after c (end_points cs)

abbrev is_lt : Ordering → Bool
is_lt Ordering.lt = true
is_lt _ = false

abbrev below : List ℕ → Option (List ℕ) → Bool
below ds none = true
below ds (some e) = is_lt (lex ds e)

below_cons :
    (c d : ℕ) (ds : List ℕ) (e : Option (List ℕ))
    → IsScalar c
    → IsScalar d
    → below (d ∷ ds) (end_after c e) ≡ (if c == d then below ds e else ltb d c)
unfolding next_code_point
below_cons c d [] none h k = ground arith
below_cons c d (x ∷ ds) none h k = ground arith
below_cons c d ds (some e) h k = ground arith

-- The code points that lie between a prefix and its end are those that start with it.
starts_with-end_points :
    (cs ds : List ℕ)
    → All IsScalar cs
    → All IsScalar ds
    → starts_with cs ds ≡ (not (is_lt (lex ds cs)) && below ds (end_points cs))
unfolding starts_with
starts_with-end_points [] [] h k = refl
starts_with-end_points [] (d ∷ ds) h k = refl
starts_with-end_points (c ∷ cs) [] h k = refl
starts_with-end_points (c ∷ cs) (d ∷ ds) h k =
    rw (below_cons c d ds (end_points cs) h.0 k.0)
      (ground (arith, starts_with-end_points cs ds h.1 k.1))

end_points-IsScalar : (cs e : List ℕ) → All IsScalar cs → end_points cs ≡ some e → All IsScalar e
unfolding next_code_point
end_points-IsScalar [] e h p = ground arith
end_points-IsScalar (c ∷ cs) [] h p = ground arith
end_points-IsScalar (c ∷ cs) (x ∷ e) h p = ground (arith, end_points-IsScalar cs e h.1)

end_points-snoc :
    (cs : List ℕ) (c : ℕ)
    → end_points (cs ++ c ∷ [])
      ≡ (if c == 1114111 then end_points cs else some (cs ++ next_code_point c ∷ []))
end_points-snoc [] c = ground arith
end_points-snoc (x ∷ cs) c = ground (arith, end_points-snoc cs c)

abbrev strip_points : List ℕ → List ℕ
strip_points [] = []
strip_points (c ∷ r) = if c == 1114111 then strip_points r else c ∷ r

abbrev increment_point : List ℕ → Option (List ℕ)
increment_point [] = none
increment_point (c ∷ r) = some (reverse r ++ next_code_point c ∷ [])

end_points-reverse : (rs : List ℕ) → end_points (reverse rs) ≡ increment_point (strip_points rs)
end_points-reverse [] = refl
end_points-reverse (c ∷ rs) =
    rw (reverse-cons c rs, end_points-snoc (reverse rs) c, end_points-reverse rs) (ground arith)

-- The units of a list of code points, from the last one back.
abbrev encode_back : List ℕ → Key
encode_back [] = []
encode_back (c ∷ r) = reverse (from_code_point c) ++ encode_back r

encode-append : (cs ds : List ℕ) → encode (cs ++ ds) ≡ encode cs ++ encode ds
encode-append [] ds = refl
encode-append (c ∷ cs) ds =
    rw (encode-append cs ds) (sym (append_assoc (from_code_point c) (encode cs) (encode ds)))

reverse-encode_back : (rs : List ℕ) → reverse (encode_back rs) ≡ encode (reverse rs)
reverse-encode_back [] = refl
reverse-encode_back (c ∷ rs) = rw (
  reverse-append (reverse (from_code_point c)) (encode_back rs),
  reverse-cons c rs,
  encode-append (reverse rs) (c ∷ []),
  reverse-reverse (from_code_point c),
  reverse-encode_back rs,
  append-nil (from_code_point c),
)

strip_max_single : (y : ℕ) (k : Key) → y ≢ 0xdfff → strip_max (y ∷ k) ≡ y ∷ k
unfolding strip_max
strip_max_single y [] h = refl
strip_max_single y (x ∷ k) h = ground arith

strip_max-encode_back :
    (rs : List ℕ) → All IsScalar rs → strip_max (encode_back rs) ≡ encode_back (strip_points rs)
unfolding strip_max from_code_point
strip_max-encode_back [] h = refl
strip_max-encode_back (c ∷ rs) h =
    ground (arith, strip_max-encode_back rs h.1, strip_max_single c (encode_back rs))

increment_last_single :
    (y : ℕ) (k : Key)
    → IsScalar y
    → increment_last (y ∷ k) ≡ some (reverse k ++ from_code_point (next_code_point y))
unfolding increment_last
increment_last_single y [] h = refl
increment_last_single y (x ∷ k) h = ground arith

increment_last_pair :
    (c : ℕ) (k : Key)
    → 65536 ≤ c
    → c < 1114112
    → increment_last ((0xdc00 + (c - 0x10000) % 0x400) ∷ (0xd800 + (c - 0x10000) / 0x400) ∷ k)
      ≡ some (reverse k ++ from_code_point (next_code_point c))
unfolding increment_last
increment_last_pair c k h u =
    let e : 0x10000
          + (0xd800 + (c - 0x10000) / 0x400 - 0xd800) * 0x400
          + (0xdc00 + (c - 0x10000) % 0x400 - 0xdc00)
        ≡ c =
      omega arith in
    ground (arith, e)

from_code_point_single : (c : ℕ) → c < 65536 → from_code_point c ≡ c ∷ []
unfolding from_code_point
from_code_point_single c h = ground arith

from_code_point_pair :
    (c : ℕ)
    → ¬ (c < 65536)
    → from_code_point c ≡ (0xd800 + (c - 0x10000) / 0x400) ∷ (0xdc00 + (c - 0x10000) % 0x400) ∷ []
unfolding from_code_point
from_code_point_pair c h = ground arith

increment_last_point :
    (c : ℕ) (k : Key)
    → IsScalar c
    → increment_last (reverse (from_code_point c) ++ k)
      ≡ some (reverse k ++ from_code_point (next_code_point c))
increment_last_point c k h = elim (dec_lt c 65536) [
  | yes p ↦ rw (from_code_point_single c p) (increment_last_single c k h)
  | no p ↦ rw (from_code_point_pair c p) (increment_last_pair c k (omega arith) h.0)
]

increment_last-encode_back :
    (c : ℕ) (rs : List ℕ)
    → IsScalar c
    → increment_last (encode_back (c ∷ rs)) ≡ some (encode (reverse rs ++ next_code_point c ∷ []))
increment_last-encode_back c rs h = rw (
  increment_last_point c (encode_back rs) h,
  reverse-encode_back rs,
  encode-append (reverse rs) (next_code_point c ∷ []),
  append-nil (from_code_point (next_code_point c)),
)

strip_points-IsScalar : (rs : List ℕ) → All IsScalar rs → All IsScalar (strip_points rs)
strip_points-IsScalar [] h = tt
strip_points-IsScalar (c ∷ rs) h = ground (arith, strip_points-IsScalar rs h.1)

increment_back :
    (rs : List ℕ)
    → All IsScalar rs
    → increment_last (encode_back rs) ≡ Option.map encode (increment_point rs)
unfolding increment_last
increment_back [] h = refl
increment_back (c ∷ rs) h = increment_last-encode_back c rs h.0

prefix_end-encode_back :
    (rs : List ℕ)
    → All IsScalar rs
    → prefix_end (encode (reverse rs)) ≡ Option.map encode (end_points (reverse rs))
unfolding prefix_end
prefix_end-encode_back rs h =
    rw
      (
        ← reverse-encode_back rs,
        reverse-reverse (encode_back rs),
        strip_max-encode_back rs h,
        end_points-reverse rs,
      )
      (increment_back (strip_points rs) (strip_points-IsScalar rs h))

All-reverse : (cs : List ℕ) → All IsScalar cs → All IsScalar (reverse cs)
All-reverse [] h = tt
All-reverse (c ∷ cs) h =
    rw (reverse-cons c cs)
      (All-append IsScalar (reverse cs) (c ∷ []) (All-reverse cs h.1) (h.0, tt))

pub prefix_end-encode :
    (cs : List ℕ) → All IsScalar cs → prefix_end (encode cs) ≡ Option.map encode (end_points cs)
prefix_end-encode cs h =
    rw (reverse-reverse cs) at (prefix_end-encode_back (reverse cs) (All-reverse cs h))

map-encode-IsKey :
    (o : Option (List ℕ)) (e : Key)
    → ((cs : List ℕ) → o ≡ some cs → All IsScalar cs)
    → Option.map encode o ≡ some e
    → IsKey e
map-encode-IsKey none e h p = ground arith
map-encode-IsKey (some cs) e h p = rw (← some_inj p) (encode-IsKey cs (h cs refl))

pub prefix_end-IsKey :
    (cs : List ℕ) (e : Key) → All IsScalar cs → prefix_end (encode cs) ≡ some e → IsKey e
prefix_end-IsKey cs e h p =
    map-encode-IsKey (end_points cs) e (λ ds q. end_points-IsScalar cs ds h q)
      (rw (prefix_end-encode cs h) at p)

-- before the bound, where there is one
abbrev pub before_end : Key → Option Key → Bool
before_end k none = true
before_end k (some e) = is_neg (compare_keys k e)

before_end-encode :
    (ds : List ℕ) (o : Option (List ℕ))
    → All IsScalar ds
    → ((e : List ℕ) → o ≡ some e → All IsScalar e)
    → before_end (encode ds) (Option.map encode o) ≡ below ds o
before_end-encode ds none h k = refl
before_end-encode ds (some e) h k = ground (arith, compare_keys-encode ds e h (k e refl))

-- For a prefix and a key that encode code points, the key starts with the prefix exactly when it
-- is not below the prefix and is below its prefix end, if there is one.
pub prefix_end_lem :
    (cs ds : List ℕ)
    → All IsScalar cs
    → All IsScalar ds
    → starts_with (encode cs) (encode ds) ≡ (
        not (is_neg (compare_keys (encode ds) (encode cs)))
        && before_end (encode ds) (prefix_end (encode cs)))
prefix_end_lem cs ds h k =
    rw
      (
        prefix_end-encode cs h,
        before_end-encode ds (end_points cs) k (λ e p. end_points-IsScalar cs e h p),
      )
      (ground (
        arith,
        starts_with-encode cs ds h k,
        starts_with-end_points cs ds h k,
        compare_keys-encode ds cs k h,
      ))
