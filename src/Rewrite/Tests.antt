-- ===== src/Rewrite/Tests.antt =====
-- Instances of the theorems on rewriting.
use flon.Base.{
  ℕ, suc, ◌≡◌, ◌≢◌, ◌↔◌, refl, arith, Bool, true, false, ◌||◌, some, List, [], ◌∷◌, String,
}
use flon.Base.Text.{Text, codes, text_eq}
use flon.Json.{Value, Items, Fields, num, str, sym, quoted, nil, cons, end, field, is_number}
use flon.State.{Node, empty_msg, new_node}
use flon.Rewrite.Built.{Tree, value_of, crashed, out_of_fuel, Tools, index_key, width}
use flon.Rewrite.Operators.{rewrite_infix}
use flon.Rewrite.Passes.{Expander, rewrite_tree, flon_rewrite_tree}
use flon.Rewrite.Shapes.{IsGood, IsFaithful, Ensures}
use flon.Rewrite.Shapes.Kept.{IsRewritten, flon_rewrite_tree-IsRewritten}
use flon.Rewrite.Ends.Fuel.{IsWellKnown, rewrite_tree-Ends}
use flon.Rewrite.Dangling.{dangling, rewrite_infix-dangling}

abbrev text_of : Value → Text
text_of (sym t) = t
text_of (str t) = t
text_of (quoted t) = t
text_of _ = []

abbrev is_one_of : List String → Text → Bool
is_one_of [] t = false
is_one_of (n ∷ ns) t = text_eq (codes n) t || is_one_of ns t

abbrev tools : Tools
tools = record {
  clone = λ v. v;
  clone_all = λ vs. vs;
  to_text = text_of;
  set_w = λ j line. record {
    head = sym (codes "set");
    atts = field (codes "_0") (str (codes "w._")) end;
    line = line;
    children = nil;
    rest = nil;
  };
  is_known = is_one_of ("if" ∷ "unless" ∷ "sequence" ∷ "push" ∷ []);
  is_callable = λ t. false;
}

tools-IsFaithful : IsFaithful tools
unfolding flon.Json.is_tree flon.Rewrite.Shapes.heads_ok flon.Json.is_array
tools-IsFaithful = record {
  clone-is_array = λ v. refl;
  clone-is_tree = λ v. refl;
  clone-is_number = λ v. refl;
  clone_all-all_trees = λ vs. refl;
  set_w-IsGood =
      λ j line n. record { head_is = refl; atts_are = refl; line_is = n; children_are = refl };
}

tools-IsWellKnown : IsWellKnown tools
unfolding text_eq
tools-IsWellKnown = record {
  clone-is_stringy = λ v. refl;
  clone-to_text = λ v h. refl;
  if_known = refl;
  unless_known = refl;
}

abbrev unexpanded : Expander
unexpanded = record { expand_head = λ node m v. v; expand_atts = λ node m fs. fs }

abbrev words : List String → ℕ → Fields
words [] i = end
words (w ∷ ws) i = field (index_key i) (sym (codes w)) (words ws (suc i))

abbrev line_of : String → List String → Tree
line_of head ws = record {
  head = sym (codes head);
  atts = words ws 0;
  line = num (codes "1");
  children = nil;
  rest = nil;
}

-- `push x or y if z`
abbrev conditional : Tree
conditional = line_of "push" ("x" ∷ "or" ∷ "y" ∷ "if" ∷ "z" ∷ [])

abbrev some_node : Node
some_node = new_node empty_msg (codes "0_0") (some (codes "0")) (value_of conditional)

flon_rewrite_tree-IsRewritten_example :
    Ensures
      (IsRewritten tools tools-IsFaithful some_node)
      (flon_rewrite_tree tools unexpanded 7 some_node empty_msg (value_of conditional))
unfolding flon.Rewrite.Shapes.heads_ok flon.Json.is_array flon.Json.is_number flon.Json.is_tree
flon_rewrite_tree-IsRewritten_example =
    flon_rewrite_tree-IsRewritten tools tools-IsFaithful unexpanded 7 some_node empty_msg
      conditional (record { head_is = refl; atts_are = refl; line_is = refl; children_are = refl })

rewrite_tree-Ends_example : rewrite_tree tools 7 conditional ≢ out_of_fuel
unfolding width
rewrite_tree-Ends_example = rewrite_tree-Ends tools tools-IsWellKnown 7 conditional (omega arith)

rewrite_infix-dangling_example :
    (rewrite_infix tools (codes "+") (line_of "1" ("+" ∷ "2" ∷ "+" ∷ [])) ≡ crashed)
    ↔ (dangling tools (codes "+") (words ("+" ∷ "2" ∷ "+" ∷ []) 0) ≡ true)
rewrite_infix-dangling_example =
    rewrite_infix-dangling tools (codes "+") (line_of "1" ("+" ∷ "2" ∷ "+" ∷ []))
