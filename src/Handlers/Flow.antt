-- ===== src/Handlers/Flow.antt =====
-- internal/handlers/api.go: what the status of a session shows to the outside: buildFlow,
-- friendlyStatusText and the simplified status of handleStatus.
use ytmpt.Common.{
  ℕ, suc, ◌≡◌, refl, Bool, true, false, not, ◌&&◌, ◌||◌, List, [], ◌∷◌, ◌++◌, ltb, ◌==◌,
  if◌then◌else◌,
}
use ytmpt.Common.Text.{Text, lit, text_eq, is_empty}
use ytmpt.Models.{
  ConversionState, preparing, fetching, created, downloading, downloaded, queued, converting,
  completed, failed, FlowStep, ConversionSession, state_text,
}

abbrev pub steps : List Text
steps =
    lit "preparing"
    ∷ lit "fetching_metadata"
    ∷ lit "created"
    ∷ lit "downloading"
    ∷ lit "downloaded"
    ∷ lit "Prossccing"
    ∷ lit "converting"
    ∷ lit "completed"
    ∷ lit "failed"
    ∷ []

unfoldable pub current_name : ConversionState → Text
current_name preparing = lit "preparing"
current_name fetching = lit "fetching_metadata"
current_name created = lit "created"
current_name downloading = lit "downloading"
current_name downloaded = lit "Prossccing"
current_name queued = lit "Prossccing"
current_name converting = lit "converting"
current_name completed = lit "completed"
current_name failed = lit "failed"

-- The first loop, with its flag reachedCurrent.
mark : Bool → Text → List Text → List FlowStep
mark reached current [] = []
mark true current (name ∷ names) =
    record { name = name; done = false; current = false } ∷ mark true current names
mark false current (name ∷ names) =
    record { name = name; done = not (text_eq name current); current = text_eq name current }
    ∷ mark (text_eq name current) current names

-- The second loop, which breaks at the current step.
finish : Text → List FlowStep → List FlowStep
finish current [] = []
finish current (step ∷ flow) =
    let rest = finish current flow in
    record step { done = true; current = false }
    ∷ (if text_eq step.name current then flow else rest)

unfoldable pub build_flow : ConversionState → List FlowStep
unfolding mark finish current_name
build_flow state =
    let current = current_name state in
    let flow = mark false current steps in
    if text_eq current (lit "completed") || text_eq current (lit "failed")
    then finish current flow
    else flow

-- The place of a state among the nine steps, and whether it is the end of a conversion.
abbrev pub place : ConversionState → ℕ
place preparing = 0
place fetching = 1
place created = 2
place downloading = 3
place downloaded = 5
place queued = 5
place converting = 6
place completed = 7
place failed = 8

abbrev pub is_terminal : ConversionState → Bool
is_terminal completed = true
is_terminal failed = true
is_terminal _ = false

-- The steps from the one at `i` on, described by the place of the state.
abbrev pub described : ConversionState → ℕ → List Text → List FlowStep
described state i [] = []
described state i (name ∷ names) =
    record {
      name = name;
      done = ltb i (place state) || (is_terminal state && i == place state);
      current = not (is_terminal state) && i == place state;
    }
    ∷ described state (suc i) names

-- The nine steps are listed in their order. A step is done exactly if it stands before the place of
-- the state, or at it when the state is terminal, and current exactly if it stands at the place of
-- a state that is not terminal.
pub build_flow_lem : (state : ConversionState) → build_flow state ≡ described state 0 steps
unfolding build_flow lit text_eq
build_flow_lem preparing = refl
build_flow_lem fetching = refl
build_flow_lem created = refl
build_flow_lem downloading = refl
build_flow_lem downloaded = refl
build_flow_lem queued = refl
build_flow_lem converting = refl
build_flow_lem completed = refl
build_flow_lem failed = refl

-- The three bytes of the ellipsis in UTF-8.
abbrev pub ellipsis : Text
ellipsis = 226 ∷ 128 ∷ 166 ∷ []

unfoldable pub friendly_status_text : ConversionSession → Text
friendly_status_text s = elim s.state [
  | completed ↦ lit "Ready to download!"
  | failed ↦ if not (is_empty s.error) then lit "Failed: " ++ s.error else lit "Failed"
  | _ ↦ lit "Preparing your audio" ++ ellipsis
]

-- The external status: one of three.
unfoldable pub external_status : ConversionState → Text
external_status completed = state_text completed
external_status failed = state_text failed
external_status _ = state_text preparing
