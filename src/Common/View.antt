-- ===== src/Common/View.antt =====
-- What a component renders: a tree of elements with their properties and handlers. `A` is what a
-- handler does. Styling (`sx`, `style`, `className`, theme colours) is left out throughout, but for
-- the colours that the code computes.
use Prim.Native.Nat.{ℕ}
use Prim.Native.String.{String}
use mathlib.Core.Bool.{Bool, true, false}
use mathlib.Core.List.{List, [], ◌∷◌}
use phan_tan_dkron_giuaky.Common.Int.{ℤ}
use phan_tan_dkron_giuaky.Common.Classes.{string_eq}

pub data Value : Type 0 where
  str : String → Value
  num : ℤ → Value
  bool : Bool → Value
  -- A number with a fraction, as it is written, and `null`.
  decimal : String → Value
  nothing : Value
  -- A text as its UTF-16 code units.
  units : List ℕ → Value
  -- A list of numbers, and a list of choices with an `id` and a `name` each.
  nums : List ℕ → Value
  choices : List (String × String) → Value

pub data Attr (A : Type 0) : Type 0 where
  prop : String → Value → Attr A
  on : String → A → Attr A

mutual
  pub data Element (A : Type 0) : Type 0 where
    text : Value → Element A
    el : String → List (Attr A) → Elements A → Element A
    -- `slot "icon" x e` is `e` with the property `icon={x}`, where `x` is an element.
    slot : String → Element A → Element A → Element A

  pub data Elements (A : Type 0) : Type 0 where
    nil : Elements A
    cons : Element A → Elements A → Elements A

module _ {A : Type 0} where
  abbrev pub kids : List (Element A) → Elements A
  kids [] = nil
  kids (e ∷ es) = cons e (kids es)

  -- An element with no property but its styling.
  abbrev pub box : String → List (Element A) → Element A
  box tag es = el tag [] (kids es)

  -- An element with properties and no children.
  abbrev pub leaf : String → List (Attr A) → Element A
  leaf tag attrs = el tag attrs nil

  -- An element without properties, as an icon.
  abbrev pub bare : String → Element A
  bare tag = el tag [] nil

  -- `name="value"`
  abbrev pub is : String → String → Attr A
  is name value = prop name (str value)

  -- `name`, or `name={true}`
  abbrev pub flag : String → Attr A
  flag name = prop name (bool true)

  -- A leaf with a text.
  abbrev pub said : String → Element A
  said s = text (str s)

  -- `{condition && element}`
  abbrev pub shown_if : Bool → Element A → Elements A
  shown_if true e = cons e nil
  shown_if false e = nil

  unfoldable pub join : Elements A → Elements A → Elements A
  join nil es = es
  join (cons d ds) es = cons d (join ds es)

  -- `xs.map((x) => …)` among the children
  unfoldable pub each {ℓ} : {B : Type ℓ} → (B → Element A) → List B → Elements A
  each f [] = nil
  each f (x ∷ xs) = cons (f x) (each f xs)

  abbrev pub all_of : List (Elements A) → Elements A
  all_of [] = nil
  all_of (es ∷ rest) = join es (all_of rest)
