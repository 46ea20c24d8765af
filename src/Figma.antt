-- ===== src/Figma.antt =====
-- tools/figma-plugin/src: the plugin that draws the design of the program. This file is about the
-- keys of the catalogue (domain/catalog.ts), the messages of the dialogue (domain/messages.ts), the
-- ownership of resources (domain/ownership.ts, figma/adapter-helpers.ts) and the report of a run
-- (domain/run-report.ts).
pub mod Report
pub mod Catalog
pub mod Contents
pub mod Requests
pub mod ScreenRequests
pub mod Runs
pub mod Document
pub mod Color
pub mod Adapter
pub mod Drawing
pub mod Entry
pub mod Tokens
pub mod FoundationContent
pub mod Foundations
pub mod Stages
pub mod Messages
pub mod Ownership
use smart_parcel_locker.Prelude.{
  ℕ, ◌+◌, ◌++◌, ◌==◌, Text, text, text_eq, Bool, true, false, ◌&&◌, Option, none, some, List, [],
  ◌∷◌, Result, ok, err, plain_error, if◌then◌else◌,
}

-- `Stage`
pub data Stage : Type 0 where
  foundations components mini_app admin_web : Stage

unfoldable pub stage_text : Stage → Text
stage_text foundations = text "foundations"
stage_text components = text "components"
stage_text mini_app = text "mini-app"
stage_text admin_web = text "admin-web"

-- `STAGE_PREREQUISITES`, `prerequisitesFor`
abbrev pub prerequisites_for : Stage → List Stage
prerequisites_for foundations = []
prerequisites_for components = foundations ∷ []
prerequisites_for mini_app = foundations ∷ components ∷ []
prerequisites_for admin_web = foundations ∷ components ∷ []

-- What the dialogue sends: no object, or an object with the fields that are read. A field that is
-- no string is `none`, and `confirmed` is `message.confirmed === true`.
pub data Unknown : Type 0 where
  no_object : Unknown
  object : Option Text → Option Text → Bool → Unknown

pub data PluginMessage : Type 0 where
  close_plugin : PluginMessage
  run_stage : Stage → PluginMessage

-- `STAGES`
stage_of : Text → Option Stage
stage_of t =
    if text_eq t (text "foundations")
    then some foundations
    else if text_eq t (text "components")
    then some components
    else if text_eq t (text "mini-app")
    then some mini_app
    else if text_eq t (text "admin-web")
    then some admin_web
    else none

abbrev is_text : Option Text → Text → Bool
is_text none expected = false
is_text (some t) expected = text_eq t expected

abbrev stage_in : Option Text → Option Stage
stage_in none = none
stage_in (some t) = stage_of t

confirmed_stage : Option Stage → Bool → Result PluginMessage
confirmed_stage none confirmed = err (plain_error (text "Unknown stage"))
confirmed_stage (some stage) confirmed =
    if confirmed
    then ok (run_stage stage)
    else err (plain_error (text "Confirm the target file first"))

-- `parsePluginMessage`
unfoldable pub parse_plugin_message : Unknown → Result PluginMessage
unfolding confirmed_stage stage_of
parse_plugin_message no_object = err (plain_error (text "Invalid plugin message"))
parse_plugin_message (object type stage confirmed) =
    if is_text type (text "close-plugin")
    then ok close_plugin
    else if is_text type (text "run-stage")
    then confirmed_stage (stage_in stage) confirmed
    else err (plain_error (text "Unknown message type"))

-- `OWNERSHIP.owner`
unfoldable pub plugin_owner : Text
plugin_owner = text "local-figma-generator"

pub data MutationDecision : Type 0 where
  create update skip conflict : MutationDecision

pub record ExistingResource : Type 0 where
  pub name_matches : Bool
  pub owner : Text
  pub key_matches : Bool

-- `decideMutation`
unfoldable pub decide_mutation : Option ExistingResource → MutationDecision
decide_mutation none = create
decide_mutation (some existing) =
    if text_eq existing.owner plugin_owner && existing.key_matches
    then update
    else if existing.name_matches
    then conflict
    else skip

-- The argument of `resourceDecision`
pub record FoundResource : Type 0 where
  pub owner : Text
  pub key : Text
  pub name_matches : Bool

-- `resourceDecision`
unfoldable pub resource_decision : Option FoundResource → Text → MutationDecision
resource_decision none key = create
resource_decision (some existing) key =
    if text_eq existing.owner plugin_owner && text_eq existing.key key
    then update
    else if existing.name_matches
    then conflict
    else skip

-- `ResourceOutcome`
pub data ResourceOutcome : Type 0 where
  created updated skipped conflicted failed : ResourceOutcome

-- `RunStatus`
pub data RunStatus : Type 0 where
  success partial_failure failure : RunStatus

pub record ResourceResult : Type 0 where
  pub key : Text
  pub outcome : ResourceOutcome
  pub node_id : Option Text
  pub message : Option Text

-- `Record<ResourceOutcome, number>`
pub record Counts : Type 0 where
  pub created : ℕ
  pub updated : ℕ
  pub skipped : ℕ
  pub conflict : ℕ
  pub error : ℕ

pub record RunReport : Type 0 where
  pub stage : Stage
  pub status : RunStatus
  pub counts : Counts
  pub results : List ResourceResult

-- `createRunReport`
unfoldable pub create_run_report : Stage → RunReport
create_run_report stage = record {
  stage = stage;
  status = success;
  counts = record { created = 0; updated = 0; skipped = 0; conflict = 0; error = 0 };
  results = [];
}

-- `{ ...counts, [outcome]: counts[outcome] + 1 }`
unfoldable pub count_outcome : ResourceOutcome → Counts → Counts
count_outcome created c = record c { created = c.created + 1 }
count_outcome updated c = record c { updated = c.updated + 1 }
count_outcome skipped c = record c { skipped = c.skipped + 1 }
count_outcome conflicted c = record c { conflict = c.conflict + 1 }
count_outcome failed c = record c { error = c.error + 1 }

unfoldable pub status_of : Counts → RunStatus
status_of c =
    let completed = c.created + c.updated + c.skipped in
    let failures = c.conflict + c.error in
    if failures == 0 then success else if completed == 0 then failure else partial_failure

-- `recordResult`
unfoldable pub record_result : RunReport → ResourceResult → RunReport
unfolding count_outcome status_of
record_result report result =
    let counts = count_outcome result.outcome report.counts in
    record report {
      status = status_of counts;
      counts = counts;
      results = report.results ++ result ∷ [];
    }
