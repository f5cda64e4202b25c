-- ===== src/Site/Pricing.antt =====
-- `dkron/website/src/components/HomepagePricing.js`: the two tables that compare the plans, for narrow and
-- for wide screens.
use phan_tan_dkron_giuaky.Common.{
  Option, some, none, List, [], ◌∷◌, String, if◌then◌else◌, string_eq, pos, Element, Elements, el,
  text, prop, num, kids, box, leaf, is, said, each, join,
}
use phan_tan_dkron_giuaky.Site.Plans.{
  Tier, Cell, included, words, Feature, Section, tiers, sections, cell_of, is_pro,
}

module _ {A : Type 0} where
  abbrev span : String → Element A
  span s = box "span" (said s ∷ [])

  abbrev hidden_icon : String → Element A
  hidden_icon tag = leaf tag (is "aria-hidden" "true" ∷ [])

  abbrev head : String → List (Element A) → Element A
  head scope es = el "th" (is "scope" scope ∷ []) (kids es)

  unfoldable pub price : Tier → Elements A
  price tier =
      if is_pro tier
      then kids (
          box "span" (said "$" ∷ text tier.price_yearly ∷ []) ∷ box "span" (said "/year" ∷ []) ∷ [])
      else kids (box "span" (text tier.price_yearly ∷ []) ∷ [])

  -- The cell of a feature in the table for narrow screens.
  unfoldable pub narrow_cell : Option Cell → Elements A
  narrow_cell (some (words s)) = kids (span s ∷ [])
  narrow_cell (some included) = kids (hidden_icon "CheckIcon" ∷ span "Yes" ∷ [])
  narrow_cell none = kids (hidden_icon "MinusIcon" ∷ span "No" ∷ [])

  -- The cell of a feature and a plan in the table for wide screens.
  unfoldable pub wide_cell : Tier → Option Cell → Elements A
  wide_cell tier (some (words s)) = kids (span s ∷ [])
  wide_cell tier (some included) = kids (
      hidden_icon "CheckIcon"
      ∷ box "span" (said "Included" ∷ said " in " ∷ said tier.name ∷ [])
      ∷ [])
  wide_cell tier none = kids (
      hidden_icon "MinusIcon"
      ∷ box "span" (said "Not included" ∷ said " in " ∷ said tier.name ∷ [])
      ∷ [])

  unfoldable pub narrow_row : Tier → Feature → Element A
  unfolding narrow_cell
  narrow_row tier feature =
      box "tr"
        (head "row" (said feature.name ∷ []) ∷ el "td" [] (narrow_cell (cell_of feature tier)) ∷ [])

  unfoldable pub narrow_table : Tier → Section → Element A
  unfolding narrow_row
  narrow_table tier section = box "table" (
      box "caption" (said section.name ∷ [])
      ∷ box "thead" (
          box "tr" (head "col" (said "Feature" ∷ []) ∷ head "col" (said "Included" ∷ []) ∷ []) ∷ [])
      ∷ el "tbody" [] (each (narrow_row tier) section.features)
      ∷ [])

  unfoldable pub narrow_link : Tier → Element A
  narrow_link tier =
      if is_pro tier
      then el "a" (is "href" "https://gum.co/dkron-pro" ∷ is "target" "_blank" ∷ [])
          (kids (said "Buy" ∷ []))
      else el "a" (is "href" "https://github.com/distribworks/dkron/releases" ∷ [])
          (kids (said "Download" ∷ []))

  unfoldable pub narrow_plan : Tier → Element A
  unfolding price narrow_table narrow_link sections
  narrow_plan tier = el "section" [] (
      join (kids (box "div" (box "h2" (said tier.name ∷ []) ∷ el "p" [] (price tier) ∷ []) ∷ []))
        (join (each (narrow_table tier) sections) (kids (box "div" (narrow_link tier ∷ []) ∷ []))))

  unfoldable pub wide_heading : Tier → Element A
  wide_heading tier = head "col" (
      said tier.name
      ∷ el "svg" (is "fill" "currentColor" ∷ is "viewBox" "0 0 8 8" ∷ []) (
          kids (
            leaf "circle"
              (prop "cx" (num (pos 4)) ∷ prop "cy" (num (pos 4)) ∷ prop "r" (num (pos 3)) ∷ [])
            ∷ []))
      ∷ el "a" (is "href" tier.href ∷ []) (kids (said "Learn more" ∷ []))
      ∷ [])

  unfoldable pub wide_price : Tier → Element A
  unfolding price
  wide_price tier = box "td" (box "div" (box "div" (el "p" [] (price tier) ∷ []) ∷ []) ∷ [])

  unfoldable pub wide_row : Feature → Element A
  unfolding wide_cell tiers
  wide_row feature = el "tr" [] (
      join (kids (head "row" (said feature.name ∷ []) ∷ []))
        (each (λ tier. el "td" [] (wide_cell tier (cell_of feature tier))) tiers))

  unfoldable pub wide_section : Section → Element A
  unfolding wide_row
  wide_section section = el "Fragment" [] (
      join
        (kids (
          box "tr" (
            el "th" (prop "colSpan" (num (pos 4)) ∷ is "scope" "colgroup" ∷ [])
              (kids (said section.name ∷ []))
            ∷ [])
          ∷ []))
        (each wide_row section.features))

  unfoldable pub wide_links : Tier → Elements A
  wide_links tier =
      if is_pro tier
      then kids (
          el "a" (is "href" "https://buy.stripe.com/9AQ9BP1UV8jkgowaEF" ∷ is "target" "_blank" ∷ [])
            (kids (said "Subscribe" ∷ []))
          ∷ el "a"
              (is "href" tier.href ∷ is "target" "_blank" ∷ is "rel" "noopener noreferrer" ∷ [])
              (kids (said "Learn more" ∷ []))
          ∷ [])
      else kids (el "a" (is "href" tier.href ∷ []) (kids (said "Download" ∷ [])) ∷ [])

  unfoldable pub wide_table : Element A
  unfolding wide_heading wide_price wide_section wide_links tiers sections
  wide_table = box "table" (
      box "caption" (said "Pricing plan comparison" ∷ [])
      ∷ box "thead" (
          el "tr" [] (
            join (kids (head "col" (span "Feature by" ∷ span "Plans" ∷ []) ∷ []))
              (each wide_heading tiers))
          ∷ [])
      ∷ el "tbody" [] (
          join
            (kids (
              el "tr" []
                (join (kids (head "row" (said "Pricing" ∷ []) ∷ [])) (each wide_price tiers))
              ∷ []))
            (each wide_section sections))
      ∷ box "tfoot" (
          el "tr" [] (
            join (kids (head "row" (said "Choose your plan" ∷ []) ∷ []))
              (each (λ tier. el "td" [] (wide_links tier)) tiers))
          ∷ [])
      ∷ [])

  unfoldable pub homepage_pricing : Element A
  unfolding narrow_plan wide_table tiers
  homepage_pricing = box "section" (
      box "div" (
        box "h2" (said "Plans" ∷ [])
        ∷ box "div" (el "div" [] (each narrow_plan tiers) ∷ box "div" (wide_table ∷ []) ∷ [])
        ∷ box "p" (said "All sales come with a two week, 100% money back guarantee." ∷ [])
        ∷ box "p" (
            said "Looking to embed Dkron in your virtual server or appliance? "
            ∷ el "a" (is "href" "docs/pro/commercial-faq" ∷ [])
                (kids (said "Read the Commercial FAQ." ∷ []))
            ∷ [])
        ∷ [])
      ∷ [])
