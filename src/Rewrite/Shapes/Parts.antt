-- ===== src/Rewrite/Shapes/Parts.antt =====
-- src/n/fl_rewrite.c: what the helpers build.
use flon.Base.{ℕ, ◌+◌, ◌≡◌, refl, arith, true, if◌then◌else◌, &&-true, &&-both}
use flon.Base.Text.{Text}
use flon.Json.{Value, Fields, end, field, is_array, is_number, is_object, is_tree, all_trees, put}
use flon.Rewrite.Built.{
  Tools, is_index, index_key, bump, unshift_attribute, collect, call_tree, v_to_tree, l_to_tree,
}
use flon.Rewrite.Shapes.{
  head_ok, heads_ok, IsGood, IsFaithful, Ensures, IsGood-is_tree, is_stringy-is_array, heads_ok-put,
}

pub unshift_attribute-heads :
    (name : Text) (fs : Fields) → heads_ok fs ≡ true → heads_ok (unshift_attribute name fs) ≡ true
unfolding unshift_attribute heads_ok is_array
unshift_attribute-heads name fs h = bumped fs h
  where
    bumped : (fs : Fields) → heads_ok fs ≡ true → heads_ok (bump fs) ≡ true
    bumped end h = h
    bumped (field k v fs) h =
        let x = &&-true (head_ok v) (heads_ok fs) h in
        &&-both (head_ok v) (heads_ok (bump fs)) x.0 (bumped fs x.1)

module _ (tools : Tools) (ok : IsFaithful tools) where
  pub head_ok-clone : (v : Value) → head_ok v ≡ true → head_ok (tools.clone v) ≡ true
  head_ok-clone v h = ground (arith, ok.clone-is_array v, ok.clone-is_tree v)

  pub v_to_tree-is_tree :
      (line v : Value) → is_number line ≡ true → is_tree (v_to_tree tools line v) ≡ true
  unfolding v_to_tree is_tree all_trees is_object is_array
  v_to_tree-is_tree line v n = ground (
    arith,
    ok.clone-is_tree v,
    ok.clone-is_array v,
    ok.clone-is_number line,
    is_stringy-is_array v,
  )

  collect-heads :
      (i : ℕ) (fs acc : Fields)
      → heads_ok fs ≡ true
      → heads_ok acc ≡ true
      → heads_ok (collect tools i fs acc) ≡ true
  unfolding collect heads_ok
  collect-heads i end acc h a = a
  collect-heads i (field k v fs) acc h a =
      let x = &&-true (head_ok v) (heads_ok fs) h in
      let j = if is_index k then index_key i else k in
      collect-heads (i + 1) fs (put j (tools.clone v) acc) x.1
        (heads_ok-put j (tools.clone v) acc (head_ok-clone v x.0) a)

  pub call_tree-IsGood :
      (line v : Value) (fs : Fields)
      → is_number line ≡ true
      → head_ok v ≡ true
      → heads_ok fs ≡ true
      → IsGood (call_tree tools line v fs)
  unfolding call_tree all_trees
  call_tree-IsGood line v fs n h a = record {
    head_is = head_ok-clone v h;
    atts_are = collect-heads 0 fs end a (unfold heads_ok in refl);
    line_is = ground (arith, ok.clone-is_number line);
    children_are = refl;
  }

  pub l_to_tree-is_tree :
      (line : Value) (fs : Fields)
      → is_number line ≡ true
      → heads_ok fs ≡ true
      → Ensures (λ v. is_tree v ≡ true) (l_to_tree tools line fs)
  unfolding l_to_tree heads_ok
  l_to_tree-is_tree line end n h = tt
  l_to_tree-is_tree line (field k v end) n h = v_to_tree-is_tree line v n
  l_to_tree-is_tree line (field k v (field j w fs)) n h =
      let x = &&-true (head_ok v) (heads_ok (field j w fs)) h in
      IsGood-is_tree (call_tree tools line v (field j w fs))
        (call_tree-IsGood line v (field j w fs) n x.0 x.1)
