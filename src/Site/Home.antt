-- ===== src/Site/Home.antt =====
-- The other parts of the home page: `dkron/website/src/pages/index.js`, and `HomepageUsers.js`,
-- `HomepageUseCases.js`, `HomepageStats.js` and `HomepageBanner.js` under
-- `dkron/website/src/components/`.
use phan_tan_dkron_giuaky.Common.{
  ℕ, List, [], ◌∷◌, String, pos, Element, el, prop, num, kids, box, leaf, bare, is, said, each,
  flag,
}

pub record User : Type 0 where
  pub name : String
  pub url : String
  pub img : String

abbrev user : String → String → String → User
user name url img = record { name = name; url = url; img = img }

unfoldable pub users : List User
users =
    user "MallGroup" "https://mallgroup.com" "/img/mallgroup-logo.svg"
    ∷ user "American Express" "https://aexp.com"
        "/img/AXP_BlueBoxLogo_EXTRALARGEscale_RGB_DIGITAL_1600x1600.png"
    ∷ user "Flickr" "https://flickr.com" "/img/Flickr_logo.png"
    ∷ user "Socal Gas" "https://www.socalgas.com/" "/img/SoCal_Gas.png"
    ∷ user "Jobandtalent" "https://www.jobandtalent.com" "/img/jt-logo.png"
    ∷ user "Linkfluence" "https://linkfluence.com/" "/img/logo_linkfluence.png"
    ∷ user "Voiceworks" "https://www.voiceworks.com/en" "/img/voiceworks-logo.svg"
    ∷ user "enreach" "https://www.enreach.fi/" "/img/logo-enreach.svg"
    ∷ user "Blackstone Publishing" "https://www.blackstonepublishing.com/"
        "/img/Blackstone_publishing_Logo_v2.png"
    ∷ user "Allianz" "https://www.allianz.com/" "/img/Allianz.svg"
    ∷ user "Kata AI" "https://kata.ai/" "/img/kata_ai.png"
    ∷ user "delcampe" "https://www.delcampe.net/" "/img/logo-delcampe.svg"
    ∷ []

pub record UseCase : Type 0 where
  pub name : String
  pub img : String

abbrev use_case : String → String → UseCase
use_case name img = record { name = name; img = img }

unfoldable pub use_cases : List UseCase
use_cases =
    use_case "Email delivery" "img/email-delivery.png"
    ∷ use_case "Payroll generation" "img/payroll-generation.png"
    ∷ use_case "Bookkeeping" "img/book-keeping.png"
    ∷ use_case "Data consolidation for BI" "img/data-consolidation.png"
    ∷ use_case "Recurring invoicing" "img/recurring-invoicing.png"
    ∷ use_case "Data transfer" "img/data-transfer.png"
    ∷ []

module _ {A : Type 0} where
  -- A link to another site.
  abbrev outside : String → Element A → Element A
  outside url e =
      el "a" (is "href" url ∷ is "target" "_blank" ∷ is "rel" "noopener noreferrer" ∷ [])
        (kids (e ∷ []))

  abbrev image : String → String → Element A
  image src alt = leaf "img" (is "src" src ∷ is "alt" alt ∷ [])

  unfoldable pub homepage_users : Element A
  unfolding users
  homepage_users = box "section" (
      box "div" (
        box "h3" (said "Trusted by" ∷ [])
        ∷ el "div" [] (each (λ u. box "div" (outside u.url (image u.img u.name) ∷ [])) users)
        ∷ [])
      ∷ box "div" (
          box "h3" (said "Partners" ∷ [])
          ∷ box "div" (
              box "div" (
                outside "https://www.noraina.cloud/" (
                  image
                    "//www.noraina.cloud/assets/static/logo.0f04e74.1968b830a90e93ddc4373b0d6426be8b.png"
                    "Noraina Cloud")
                ∷ [])
              ∷ box "div" (
                  outside "https://gemfury.com/f/partner"
                    (image "//badge.fury.io/fp/gemfury.svg" "")
                  ∷ [])
              ∷ [])
          ∷ [])
      ∷ [])

  unfoldable pub homepage_use_cases : Element A
  unfolding use_cases
  homepage_use_cases = box "section" (
      box "div" (
        box "h3" (said "Example use cases" ∷ [])
        ∷ el "div" []
            (each (λ u. box "div" (image u.img u.name ∷ box "p" (said u.name ∷ []) ∷ [])) use_cases)
        ∷ [])
      ∷ [])

  -- A number that counts up, over its title.
  abbrev counter : ℕ → String → Element A
  counter end title = box "div" (
      leaf "CountUp"
        (prop "end" (num (pos end)) ∷ prop "duration" (num (pos 5)) ∷ flag "useEasing" ∷ [])
      ∷ box "h3" (said title ∷ [])
      ∷ [])

  unfoldable pub homepage_stats : Element A
  homepage_stats = box "section" (
      box "div" (
        box "h2" (said "Stats" ∷ [])
        ∷ box "div" (counter 807 "Clusters Running" ∷ counter 2536 "Servers Running" ∷ [])
        ∷ [])
      ∷ [])

  unfoldable pub homepage_banner : Element A
  homepage_banner = box "div" (
      box "div" (
        box "div" (
          box "div" (
            box "span" (leaf "SpeakerphoneIcon" (is "aria-hidden" "true" ∷ []) ∷ [])
            ∷ box "p" (
                box "span" (said "Dkron 4.0 Beta is here!" ∷ [])
                ∷ box "span" (said "Big news! Dkron 4.0 Stable is here!" ∷ [])
                ∷ [])
            ∷ [])
          ∷ box "div" (
              el "a" (is "href" "/blog/dkron-pro-4.0-stable/" ∷ []) (kids (said "Learn more" ∷ []))
              ∷ [])
          ∷ [])
        ∷ [])
      ∷ [])

  unfoldable pub home : Element A
  home = box "Fragment" (
      bare "HomepageBanner"
      ∷ el "Layout"
          (is "title" "Dkron - Cloud native job scheduling system"
            ∷ is "description" "Cloud native job scheduling system"
            ∷ [])
          (kids (
            bare "HomepageHeader"
            ∷ box "main" (
                bare "HomepageDescPanel"
                ∷ bare "HomepageFeatures"
                ∷ bare "HomepageUseCases"
                ∷ bare "HomepagePricing"
                ∷ bare "HomepageStats"
                ∷ bare "HomepageTestimonials"
                ∷ bare "HomepageUsers"
                ∷ [])
            ∷ leaf "img" (
                is "height" "1"
                ∷ is "width" "1"
                ∷ is "alt" ""
                ∷ is "src" "https://px.ads.linkedin.com/collect/?pid=8378297&fmt=gif"
                ∷ [])
            ∷ []))
      ∷ [])
