-- ===== src/Optimizely/TestConfig.antt =====
-- pkg/optimizely/optimizelytest/config.go: the project configuration that the tests build up.
pub mod Getters
pub mod Adders
pub mod Loops
mod Bags
mod Traffic
mod Lost
mod New
mod Issued
mod Keys
mod Shared
mod Steps
mod Tests
use inspiring_vacations_agen.Common.{
  ℕ, ◌+◌, Bool, true, false, Option, none, some, List, [], ◌∷◌, ◌++◌, String, length, get_elem?,
  itoa, zero, suc,
}
use inspiring_vacations_agen.Common.Dict.{Dict}

-- The types of go-sdk that the configuration only stores, with the fields by which it stores
-- them and the zero values that its getters return with an error.
pub record Entities : Type 1 where
  pub Attribute : Type 0
  pub Audience : Type 0
  pub Event : Type 0
  pub Group : Type 0
  pub Integration : Type 0
  pub Variable : Type 0
  pub audience_id : Audience → String
  pub event_key : Event → String
  pub variable_id : Variable → String
  pub no_attribute : Attribute
  pub no_audience : Audience
  pub no_event : Event
  pub no_group : Group
  pub no_variable : Variable

-- `entities.VariationVariable`
pub record VariationVariable : Type 0 where
  pub id : String
  pub value : String

-- `entities.Variation`, with the fields that the file names; so are the records below.
pub record Variation : Type 0 where
  pub key : String
  pub id : String
  pub feature_enabled : Bool
  pub variables : Dict String VariationVariable

-- `entities.Range`
pub record Range : Type 0 where
  pub entity_id : String
  pub end_of_range : ℕ

-- `entities.Experiment`. Its map of variations is shared by all copies of the experiment, so
-- that it is an address in the heap of the configuration, and `none` where it is nil.
pub record Experiment : Type 0 where
  pub key : String
  pub id : String
  pub layer_id : String
  pub variations : Option ℕ
  pub variation_key_to_id_map : Dict String String
  pub traffic_allocation : List Range

-- `entities.Rollout`
pub record Rollout : Type 0 where
  pub id : String
  pub experiments : List Experiment

-- `entities.Feature`
pub record Feature (S : Entities) : Type 0 where
  pub key : String
  pub feature_experiments : List Experiment
  pub rollout : Rollout
  pub variable_map : Dict String S.Variable

-- `entities.Experiment{}` and `entities.Feature{}`
abbrev pub no_experiment : Experiment
no_experiment = record {
  key = "";
  id = "";
  layer_id = "";
  variations = none;
  variation_key_to_id_map = [];
  traffic_allocation = [];
}

abbrev pub no_feature : {S : Entities} → Feature S
no_feature = record {
  key = "";
  feature_experiments = [];
  rollout = record { id = ""; experiments = [] };
  variable_map = [];
}

-- `heap` holds the maps of variations that the configuration has made. `next_id` counts the
-- identifiers given out, of which there are fewer than an `int` can count.
pub record TestProjectConfig (S : Entities) : Type 0 where
  pub datafile : String
  pub host_for_odp : String
  pub public_key_for_odp : String
  pub account_id : String
  pub project_id : String
  pub revision : String
  pub experiment_key_to_id_map : Dict String String
  pub audience_map : Dict String S.Audience
  pub attribute_map : Dict String S.Attribute
  pub event_map : Dict String S.Event
  pub attribute_key_to_id_map : Dict String String
  pub experiment_map : Dict String Experiment
  pub feature_map : Dict String (Feature S)
  pub group_map : Dict String S.Group
  pub rollout_map : Dict String Rollout
  pub next_id : ℕ
  pub integrations : List S.Integration
  pub segments : List String
  pub anonymize_ip : Bool
  pub bot_filtering : Bool
  pub send_flag_decisions : Bool
  pub sdk_key : String
  pub environment_key : String
  pub flag_variations_map : Dict String (List Variation)
  pub heap : List (Dict String Variation)

module _ {S : Entities} where
  unfoldable pub new_config : TestProjectConfig S
  new_config = record {
    datafile = "";
    host_for_odp = "hostForODP";
    public_key_for_odp = "publicKeyForODP";
    account_id = "accountId";
    project_id = "projectId";
    revision = "revision";
    experiment_key_to_id_map = [];
    audience_map = [];
    attribute_map = [];
    event_map = [];
    attribute_key_to_id_map = [];
    experiment_map = [];
    feature_map = [];
    group_map = [];
    rollout_map = [];
    next_id = 0;
    integrations = [];
    segments = [];
    anonymize_ip = true;
    bot_filtering = true;
    send_flag_decisions = false;
    sdk_key = "sdkKey";
    environment_key = "";
    flag_variations_map = [];
    heap = [];
  }

  -- `getNextID`: the identifier, and the configuration after it.
  unfoldable pub get_next_id : TestProjectConfig S → String × TestProjectConfig S
  get_next_id c = let n = c.next_id + 1 in (itoa n, record c { next_id = n })

  -- A map literal: its address, and the configuration after it.
  unfoldable pub make_map :
      Dict String Variation → TestProjectConfig S → Option ℕ × TestProjectConfig S
  make_map m c = (some (length c.heap), record c { heap = c.heap ++ (m ∷ []) })

  -- The map at an address; a nil map has no entries.
  unfoldable pub read_map : Option ℕ → TestProjectConfig S → Dict String Variation
  read_map none c = []
  read_map (some a) c = elim (get_elem? c.heap a) [ none ↦ [] | some m ↦ m ]

abbrev pub set_at {ℓ} : {A : Type ℓ} → ℕ → A → List A → List A
set_at n y [] = []
set_at zero y (x ∷ xs) = y ∷ xs
set_at (suc n) y (x ∷ xs) = x ∷ set_at n y xs
