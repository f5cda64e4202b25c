-- ===== src/Site/Plans.antt =====
-- `dkron/website/src/components/HomepagePricing.js`: the plans and what each feature holds under them.
use phan_tan_dkron_giuaky.Common.{
  Bool, Option, List, [], ◌∷◌, String, ◌==◌, string_eq, get, pos, Value, str, num,
}

pub record Tier : Type 0 where
  pub name : String
  pub href : String
  -- A text or a number
  pub price_yearly : Value

-- What a feature holds under the name of a plan: `true`, or a text
pub data Cell : Type 0 where
  included : Cell
  words : String → Cell

pub record Feature : Type 0 where
  pub name : String
  pub tiers : List (String × Cell)

pub record Section : Type 0 where
  pub name : String
  pub features : List Feature

unfoldable pub tiers : List Tier
tiers =
    record {
      name = "Free";
      href = "https://github.com/distribworks/dkron/";
      price_yearly = str "FREE";
    }
    ∷ record { name = "Pro"; href = "/pro/"; price_yearly = num (pos 450) }
    ∷ []

abbrev in_both : String → Feature
in_both name = record { name = name; tiers = ("Free", included) ∷ ("Pro", included) ∷ [] }

abbrev in_pro : String → Feature
in_pro name = record { name = name; tiers = ("Pro", included) ∷ [] }

unfoldable pub sections : List Section
sections =
    record {
      name = "Features";
      features =
          in_both "Executor plugins"
          ∷ in_both "Processor plugins"
          ∷ in_both "Web UI"
          ∷ in_both "Rest API"
          ∷ in_both "Job retries"
          ∷ in_both "Job chaining"
          ∷ in_both "Concurrency control"
          ∷ in_both "Metrics"
          ∷ in_both "Embedded storage engine"
          ∷ in_pro "Fast mode"
          ∷ in_pro "Docker executor"
          ∷ in_pro "AWS ECS executor"
          ∷ in_pro "Elasticsearch processor"
          ∷ in_pro "Advanced Email processor"
          ∷ in_pro "Slack processor"
          ∷ in_pro "Encryption"
          ∷ in_pro "Web UI Authentication"
          ∷ in_pro "API Authentication"
          ∷ in_pro "Access Control"
          ∷ in_pro "Cross region failover"
          ∷ record {
            name = "Dedicated Support";
            tiers = ("Free", words "None") ∷ ("Pro", words "Email") ∷ [];
          }
          ∷ record {
            name = "License";
            tiers = ("Free", words "LGPL") ∷ ("Pro", words "Commercial - No custom terms") ∷ [];
          }
          ∷ record { name = "Purchasing"; tiers = ("Pro", words "Credit Card") ∷ [] }
          ∷ [];
    }
    ∷ []

-- `feature.tiers[tier.name]`
abbrev pub cell_of : Feature → Tier → Option Cell
cell_of feature tier = get feature.tiers tier.name

-- `tier.name === "Pro"`
abbrev pub is_pro : Tier → Bool
is_pro tier = tier.name == "Pro"
