-- ===== src/Packed/Tags.antt =====
-- The tag section of a packed event: what `PackedEventTagBuilder` writes, `foreachTag` walks.
use strfry_http.Base.{
  ℕ, zero, suc, ◌≤◌, ◌≡◌, refl, List, [], ◌∷◌, ◌++◌, Bytes, Result, ok, ◌>>=◌, length, All, drop,
  if◌then◌else◌, arith, take-append_length, drop-append_length, length-append, >>=-congr, ◌%◌,
}
use mathlib.Core.List.{append-nil, append_assoc}
use strfry_http.Packed.{
  PackedEventView, foreach_tag, Callback, foreach_tag_loop, PackedEventTagBuilder, add,
}

abbrev pub Tag : Type 0
Tag = ℕ × Bytes

abbrev pub Fits : Tag → Type 0
Fits t = length t.1 ≤ 255

-- The tags added one after the other.
abbrev pub add_all : List Tag → PackedEventTagBuilder → Result PackedEventTagBuilder
add_all [] t = ok t
add_all ((k, v) ∷ tags) t = do t' ← add k v t; add_all tags t'

-- The walk over a list of tags, up to the callback's stop.
abbrev pub walk {ℓ} : {S : Type ℓ} → Callback S → S → List Tag → Result S
walk cb s [] = ok s
walk cb s ((k, v) ∷ tags) = do
  (s', ret) ← cb s k v
  let rest = walk cb s' tags
  if ret then rest else ok s'

-- The bytes of a list of tags.
abbrev pub encode : List Tag → Bytes
encode [] = []
encode ((k, v) ∷ tags) = k ∷ length v ∷ v ++ encode tags

-- No tag of at most 255 bytes is refused, and the builder's bytes are those of the list.
pub add_all_lem :
    (tags : List Tag) (t : PackedEventTagBuilder)
    → All Fits tags
    → add_all tags t ≡ ok (record { buf = t.buf ++ encode tags })
unfolding add
add_all_lem [] t h = rw (append-nil t.buf) refl
add_all_lem ((k, v) ∷ tags) t h = ground (
  arith,
  add_all_lem tags (record { buf = t.buf ++ (k ∷ (length v % 256) ∷ v) }),
  append_assoc t.buf (k ∷ length v ∷ v) (encode tags),
)

pub foreach_tag_loop-encode {ℓ} :
    {S : Type ℓ} (cb : Callback S) (tags : List Tag) (fuel : ℕ) (s : S)
    → length (encode tags) ≤ fuel
    → foreach_tag_loop cb fuel s (encode tags) ≡ walk cb s tags
unfolding foreach_tag_loop
foreach_tag_loop-encode cb [] fuel s h = refl
foreach_tag_loop-encode cb ((k, v) ∷ tags) zero s h = absurd (omega arith)
foreach_tag_loop-encode cb ((k, v) ∷ tags) (suc fuel) s h =
    rw (take-append_length v (encode tags), drop-append_length v (encode tags))
      (>>=-congr (cb s k v) (λ x.
        ground (arith, length-append v (encode tags), foreach_tag_loop-encode cb tags fuel x.0)))

-- The walk of a view whose tag section was built from a list visits those tags in order, with the
-- callback's results passed on, and stops where the callback says so. Nothing is out of range.
pub foreach_tag-encode {ℓ} :
    {S : Type ℓ} (cb : Callback S) (tags : List Tag) (s : S) (v : PackedEventView)
    → drop 88 v.buf ≡ encode tags
    → foreach_tag cb s v ≡ walk cb s tags
unfolding foreach_tag
foreach_tag-encode cb tags s v h =
    rw h (foreach_tag_loop-encode cb tags (length (encode tags)) s (omega arith))
