-- ===== src/Flows/Plain.antt =====
-- src/n/fl_rewrite.c: what rewriting looks for, on the tree of a flow.
use flon.Base.{
  ◌≡◌, refl, ◌∙◌, ap, arith, Bool, true, false, not, ◌&&◌, &&-true, none, List, [], ◌∷◌, String,
}
use flon.Base.Text.{Text, codes, text_eq, has_byte}
use flon.Base.Lists.{All}
use flon.Json.{Value, Fields, null, bool, num, end, field, is_stringy, is_tree}
use flon.State.{Node, Msg}
use flon.Rewrite.Built.{Tree, Tools, says, is_op}
use flon.Rewrite.Heads.{split_if}
use flon.Rewrite.Operators.{has_op, no_items, has_tree}
use flon.Rewrite.Passes.{operators, Expander}
use flon.Rewrite.Plain.{Lacks, IsPlain}
use flon.Flows.{Flow, noop, val, sequence, head_of, is_literal}

-- What the rest of the program says about these trees: the three heads are instructions, the text of
-- a symbol is that symbol, and expand leaves alone what has no `$`.
pub record ReadsFlows (tools : Tools) (ex : Expander) : Type 0 where
  pub text : (t : Text) → tools.to_text (Value.sym t) ≡ t
  pub known : (f : Flow) → tools.is_known (head_of f) ≡ true
  pub head :
      (v : Node) (m : Msg) (t : Text)
      → has_byte b'$' t ≡ false
      → ex.expand_head v m (Value.sym t) ≡ Value.sym t
  pub no_atts : (v : Node) (m : Msg) → ex.expand_atts v m end ≡ end
  pub literal :
      (v : Node) (m : Msg) (k : Text) (w : Value)
      → has_byte b'$' k ≡ false
      → is_literal w ≡ true
      → ex.expand_atts v m (field k w end) ≡ field k w end

abbrev Apart : Text → String → Type 0
Apart h op = text_eq h (codes op) ≡ false

all_apart : Text → List String → Bool
all_apart h [] = true
all_apart h (op ∷ ops) = not (text_eq h (codes op)) && all_apart h ops

not-false : (b : Bool) → not b ≡ true → b ≡ false
not-false false e = refl
not-false true e = cc

all_apart-All : (h : Text) (ops : List String) → all_apart h ops ≡ true → All (Apart h) ops
unfolding all_apart
all_apart-All h [] e = tt
all_apart-All h (op ∷ ops) e =
    let (a, b) = &&-true (not (text_eq h (codes op))) (all_apart h ops) e in
    (not-false (text_eq h (codes op)) a, all_apart-All h ops b)

abbrev heads : List String
heads = "else" ∷ "set" ∷ "if" ∷ "elif" ∷ "elsif" ∷ "unless" ∷ []

-- The head of a flow is none of those that rewriting looks for.
head_of-operators : (f : Flow) → all_apart (head_of f) operators ≡ true
unfolding head_of text_eq all_apart
head_of-operators (noop line) = refl
head_of-operators (val line v) = refl
head_of-operators (sequence line fs) = refl

head_of-heads : (f : Flow) → all_apart (head_of f) heads ≡ true
unfolding head_of text_eq all_apart
head_of-heads (noop line) = refl
head_of-heads (val line v) = refl
head_of-heads (sequence line fs) = refl

-- A literal is no text and no tree.
literal_says : (tools : Tools) (w : Value) (t : Text) → is_literal w ≡ true → says tools w t ≡ false
unfolding says is_stringy is_literal
literal_says tools null t e = refl
literal_says tools (bool b) t e = refl
literal_says tools (num n) t e = refl
literal_says tools (Value.str u) t e = cc
literal_says tools (Value.quoted u) t e = cc
literal_says tools (Value.sym u) t e = cc
literal_says tools (Value.arr vs) t e = cc
literal_says tools (Value.obj fs) t e = cc

literal_tree : (w : Value) → is_literal w ≡ true → is_tree w ≡ false
unfolding is_tree is_literal
literal_tree null e = refl
literal_tree (bool b) e = refl
literal_tree (num n) e = refl
literal_tree (Value.str u) e = refl
literal_tree (Value.quoted u) e = refl
literal_tree (Value.sym u) e = refl
literal_tree (Value.arr vs) e = cc
literal_tree (Value.obj fs) e = refl

-- The attributes of a flow: none, or a literal.
pub data FewAtts : Fields → Type 0 where
  no_atts : FewAtts end
  one_att : {k : Text} {w : Value} → is_literal w ≡ true → FewAtts (field k w end)

module _ (tools : Tools) where
  few-has_op : {fs : Fields} (op : Text) → FewAtts fs → has_op tools op fs ≡ false
  unfolding has_op is_op
  few-has_op op no_atts = refl
  few-has_op op (one_att {k} {w} e) = ground (arith, literal_says tools w op e)

  few-split_if : {fs : Fields} → FewAtts fs → split_if tools fs ≡ none
  unfolding split_if
  few-split_if no_atts = refl
  few-split_if (one_att {k} {w} e) =
      ground (arith, literal_says tools w (codes "if") e, literal_says tools w (codes "unless") e)

  few-has_tree : {fs : Fields} → FewAtts fs → has_tree tools fs ≡ false
  unfolding has_tree
  few-has_tree no_atts = refl
  few-has_tree (one_att {k} {w} e) = ground (arith, literal_tree w e)

  head_says :
      (h : Text) (op : String)
      → ((t : Text) → tools.to_text (Value.sym t) ≡ t)
      → Apart h op
      → says tools (Value.sym h) (codes op) ≡ false
  unfolding says is_stringy
  head_says h op text a = rw (text h) a

  operators-Lacks :
      (h : Text) (t : Tree) (ops : List String)
      → t.head ≡ Value.sym h
      → ((t : Text) → tools.to_text (Value.sym t) ≡ t)
      → FewAtts t.atts
      → All (Apart h) ops
      → All (Lacks tools t) ops
  operators-Lacks h t [] e text few a = tt
  operators-Lacks h t (op ∷ ops) e text few a =
      let no = ap (λ v. says tools v (codes op)) e ∙ head_says h op text a.0 in
      (
        (few-has_op (codes op) few, ap (λ b. b && no_items tools t.children) no),
        operators-Lacks h t ops e text few a.1,
      )

  pub flow-IsPlain :
      (ex : Expander) (f : Flow) (t : Tree)
      → ReadsFlows tools ex
      → t.head ≡ Value.sym (head_of f)
      → FewAtts t.atts
      → IsPlain tools t
  unfolding is_stringy
  flow-IsPlain ex f t r e few =
      let h = head_of f in
      let (is_else, (is_set, (is_if, (is_elif, (is_elsif, (is_unless, rest)))))) =
        all_apart-All h heads (head_of-heads f) in
      let no = λ (op : String) (a : Apart h op).
        ap (λ v. says tools v (codes op)) e ∙ head_says h op r.text a in
      record {
        texty = ap is_stringy e;
        known =
            ap (λ v. tools.is_known (tools.to_text v)) e ∙ ap tools.is_known (r.text h) ∙ r.known f;
        no_else = no "else" is_else;
        no_head_if = ground (
          arith,
          no "if" is_if,
          no "elif" is_elif,
          no "elsif" is_elsif,
          no "unless" is_unless,
          no "else" is_else,
        );
        no_set = no "set" is_set;
        no_post_if = few-split_if few;
        no_operator =
            operators-Lacks h t operators e r.text few
              (all_apart-All h operators (head_of-operators f));
        no_tree = few-has_tree few;
      }
