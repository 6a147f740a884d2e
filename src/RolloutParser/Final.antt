-- ===== src/RolloutParser/Final.antt =====
-- The messages of bridge/src/rollout-parser.mjs: `classifyFinal`, `normalizedFinal`, `control`.
-- `byte_length s` is `Buffer.byteLength(s, "utf8")`, `sha256 s` the hash of a text in hexadecimal.
use hermes_codex_bridge.Base.{
  ℕ, String, Bool, false, not, ◌||◌, Option, none, some, List, [], ◌∷◌, leb, if◌then◌else◌, str_eq,
  Result, ok, err,
}
use hermes_codex_bridge.Base.Text.{codes, includes}
use hermes_codex_bridge.Base.Strings.{is_empty, remove_all, trim, join}
use hermes_codex_bridge.Base.Json.{Json, get, at, as_string, or_else}
use hermes_codex_bridge.Contracts.Shape.{
  EventKind, final_response, question, task_completed, ReplyMode, next_turn,
}
use hermes_codex_bridge.FinalIdentity.{
  explicit, canonical_final_identity, create_deterministic_event_id,
}

-- the `ROLLOUT_…` codes
pub data Code : Type 0 where
  record_too_large message_too_large utf8 : Code

pub data ControlKind : Type 0 where
  turn_started auto_goal_continuation user_input : ControlKind

abbrev control_name : ControlKind → String
control_name turn_started = "TURN_STARTED"
control_name auto_goal_continuation = "AUTO_GOAL_CONTINUATION"
control_name user_input = "USER_INPUT"

-- what both channels carry
pub record Origin : Type 0 where
  pub thread_id : Option String
  pub cwd : Option String
  pub turn_id : Option String
  pub timestamp : Option String
  pub dedupe_key : String
  pub event_id : String

pub record Final : Type 0 where
  pub origin : Origin
  pub kind : EventKind
  pub reply_mode : Option ReplyMode
  pub text : String
  pub item_id : Option String
  pub canonical_identity : Option String

-- a message on its `channel`
pub data Message : Type 0 where
  final : Final → Message
  control : Origin → ControlKind → Message

abbrev pub origin : Message → Origin
origin (final f) = f.origin
origin (control o k) = o

-- the parser's state
pub record Context : Type 0 where
  pub thread_id : Option String
  pub cwd : Option String
  pub turn_id : Option String
  pub is_subagent : Bool
  pub is_suppressed : Bool

-- `explicitString`
abbrev pub explicit_string : Option Json → Option String
explicit_string v = explicit (as_string v)

-- `a ?? b`
infixr 3 ◌<|>◌
abbrev pub ◌<|>◌ : Option String → Option String → Option String
none <|> b = b
some a <|> b = some a

-- `payload.turn_id`, with `payload` a field of the record that need not be an object
abbrev pub payload_field : String → Json → Option Json
payload_field k v = get k (at "payload" v)

unfoldable pub is_final_phase : Option Json → Bool
is_final_phase v = elim (as_string v) [
  | none ↦ false
  | some s ↦ str_eq s "final_answer" || str_eq s "final"
]

pub record Classified : Type 0 where
  pub kind : EventKind
  pub reply_mode : Option ReplyMode
  pub text : String

-- `MARKERS`, in their order
abbrev pub markers : List (String × EventKind × Option ReplyMode)
markers =
    ("<!-- HC3:WAITING_FOR_INPUT -->", question, some next_turn)
    ∷ ("<!-- HC3:PHASE_CONFIRMATION -->", question, some next_turn)
    ∷ ("<!-- HC3:TASK_COMPLETED -->", task_completed, none)
    ∷ []

abbrev classify_by : List (String × EventKind × Option ReplyMode) → String → Classified
classify_by [] text = record { kind = final_response; reply_mode = none; text = text }
classify_by ((marker, kind, mode) ∷ rest) text =
    if includes marker text
    then record { kind = kind; reply_mode = mode; text = trim (remove_all (codes marker) 0 text) }
    else classify_by rest text

-- `classifyFinal`
unfoldable pub classify_final : String → Classified
unfolding remove_all
classify_final text = classify_by markers text

module _ (byte_length : String → ℕ) (sha256 : String → String) where
  -- the key of a final message
  abbrev item_key : Option String → Option String → String → String
  item_key (some item) thread_id record_text = join "" ("item:" ∷ item ∷ [])
  item_key none thread_id record_text =
      join "" (or_else thread_id "" ∷ ":" ∷ sha256 record_text ∷ [])

  -- `normalizedFinal`; `item_id` is no empty text where it is there
  unfoldable pub normalized_final :
      Json → String → Context → Option String → Option String → String → Result Code (List Message)
  normalized_final v record_text context turn_id item_id text =
      if is_empty text
      then ok []
      else if not (leb (byte_length text) 2097152)
      then err message_too_large
      else let classified = classify_final text in
        let identity = canonical_final_identity context.thread_id turn_id item_id in
        let key = or_else identity (item_key item_id context.thread_id record_text) in
        if is_empty classified.text
        then ok []
        else ok (
            final (record {
              origin = record {
                thread_id = context.thread_id;
                cwd = context.cwd;
                turn_id = turn_id;
                timestamp = explicit_string (get "timestamp" v);
                dedupe_key = key;
                event_id = create_deterministic_event_id sha256 key;
              };
              kind = classified.kind;
              reply_mode = classified.reply_mode;
              text = classified.text;
              item_id = item_id;
              canonical_identity = identity;
            })
            ∷ [])

  -- `control`, with an empty suffix
  unfoldable pub make_control : ControlKind → Context → Json → List Message
  make_control kind context v =
      let turn_id =
        explicit_string (payload_field "turn_id" v)
        <|> explicit_string (get "turn_id" v)
        <|> context.turn_id in
      let key = join ":" (
        "control"
        ∷ or_else context.thread_id "unknown"
        ∷ or_else turn_id "unknown"
        ∷ control_name kind
        ∷ ""
        ∷ []) in
      control
        (record {
          thread_id = context.thread_id;
          cwd = context.cwd;
          turn_id = turn_id;
          timestamp = explicit_string (get "timestamp" v);
          dedupe_key = key;
          event_id = create_deterministic_event_id sha256 key;
        })
        kind
      ∷ []
