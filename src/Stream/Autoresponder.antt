-- ===== src/Stream/Autoresponder.antt =====
-- src/autoresponder.c. Times are milliseconds; the regex engine is a `Matcher`.
pub mod Firing
use smolmux.Base.{
  ℕ, zero, suc, ◌+◌, ◌-◌, ◌*◌, Bool, true, false, not, ◌&&◌, ◌||◌, Option, none, some, List, [],
  ◌∷◌, ◌++◌, Bytes, ltb, leb, ◌==◌, if◌then◌else◌, length, get_or, take, drop, min, copied,
  same_text,
}
use smolmux.Stream.Matcher.{Matcher}
use smolmux.Stream.Window.{Window, empty_window, window_append}

abbrev pub max_rules : ℕ
max_rules = 32

abbrev pub response_max : ℕ
response_max = 256

abbrev pub window_bytes : ℕ
window_bytes = 8192

abbrev pub default_cooldown : ℕ
default_cooldown = 1000

-- `sm_ar_rule_t`
pub record Rule (E : Type 0) : Type 0 where
  pub name : Bytes
  pub pattern : Bytes
  pub compiled : E
  pub response : Bytes
  pub once : Bool
  pub enabled : Bool
  pub cooldown : ℕ
  pub last_fire_time : ℕ
  pub created_by : Bytes

-- `sm_autoresponder_t`; the list holds the `rule_count` rules.
pub record Autoresponder (E : Type 0) : Type 0 where
  pub rules : List (Rule E)
  pub rule_cap : ℕ
  pub window : Window

-- `sm_ar_fired_t`
pub record Fired : Type 0 where
  pub rule_index : ℕ
  pub response : Bytes
  pub name : Bytes
  pub matched_text : Bytes

pub grown_rules : ℕ → ℕ
grown_rules old =
    let new_cap = if old == 0 then 8 else old * 2 in
    if ltb max_rules new_cap then max_rules else new_cap

-- `while (start > 0 && window[start - 1] != '\n') start--`
pub line_start : Bytes → ℕ → ℕ
line_start window zero = 0
line_start window (suc start) =
    let earlier = line_start window start in
    if get_or window start 0 == b'\n' then suc start else earlier

-- The line that holds the byte `at`, from its start to the end of the window, in 127 bytes.
pub line_text : Bytes → ℕ → Bytes
line_text window off =
    let at = if ltb (length window) off then length window else off in
    take 127 (drop (line_start window at) window)

module _ {E : Type 0} where
  -- `sm_autoresponder_init`; the flag is the success of its `malloc`.
  pub init : Bool → Autoresponder E
  init ok = record {
    rules = [];
    rule_cap = 0;
    window = empty_window (if ok then window_bytes else 0);
  }

  -- `sm_autoresponder_reset_window`
  pub reset_window : Autoresponder E → Autoresponder E
  reset_window ar = record ar { window = record ar.window { bytes = []; search_offset = 0 } }

  -- `sm_autoresponder_clear`
  pub clear : Autoresponder E → Autoresponder E
  clear ar = record ar { rules = [] }

  -- Is there a rule of this name, as `find_rule` looks for it?
  pub has_rule : List (Rule E) → Bytes → Bool
  has_rule [] name = false
  has_rule (r ∷ rs) name = same_text r.name name || has_rule rs name

  -- The new contents of a rule's place, whose owner stays.
  pub filled : E → Bytes → Bytes → Bytes → Bool → ℕ → Bytes → Rule E
  filled e name pattern response once cooldown owner = record {
    name = copied 64 name;
    pattern = copied 256 pattern;
    compiled = e;
    response = response;
    once = once;
    enabled = true;
    cooldown = if ltb 0 cooldown then cooldown else default_cooldown;
    last_fire_time = 0;
    created_by = owner;
  }

  -- The first rule of the name gets the new contents.
  pub replace_rule : List (Rule E) → Bytes → (Bytes → Rule E) → List (Rule E)
  replace_rule [] name with_owner = []
  replace_rule (r ∷ rs) name with_owner =
      let rest = replace_rule rs name with_owner in
      if same_text r.name name then with_owner r.created_by ∷ rs else r ∷ rest

  add_compiled : Bool → Autoresponder E → Bytes → (Bytes → Rule E) → Bool × Autoresponder E
  add_compiled ok ar name with_owner =
      if has_rule ar.rules name
      then (true, record ar { rules = replace_rule ar.rules name with_owner })
      else if leb max_rules (length ar.rules)
      then (false, ar)
      else if leb ar.rule_cap (length ar.rules)
      then (if ok
          then (
            true,
            record ar {
              rules = ar.rules ++ with_owner [] ∷ [];
              rule_cap = grown_rules ar.rule_cap;
            },
          )
          else (false, ar))
      else (true, record ar { rules = ar.rules ++ with_owner [] ∷ [] })

  -- `sm_autoresponder_add` with a name and a pattern that are not NULL; `cooldown` is 0 for any that
  -- is not positive. The flag is the success of the table's `realloc`.
  pub add :
      Matcher E → Bool → Autoresponder E → Bytes → Bytes → Bytes → Bool → ℕ → Bool × Autoresponder E
  unfolding add_compiled
  add m ok ar name pattern response once cooldown =
      if length name == 0 || length pattern == 0
      then (false, ar)
      else if ltb response_max (length response)
      then (false, ar)
      else (elim (m.compile pattern) [
        | none ↦ (false, ar)
        | some e ↦ add_compiled ok ar name (filled e name pattern response once cooldown)
      ])

  set_rule_owner : List (Rule E) → Bytes → Bytes → List (Rule E)
  set_rule_owner [] name owner = []
  set_rule_owner (r ∷ rs) name owner =
      let rest = set_rule_owner rs name owner in
      if same_text r.name name then record r { created_by = copied 64 owner } ∷ rs else r ∷ rest

  -- `sm_autoresponder_set_owner`
  pub set_owner : Autoresponder E → Bytes → Bytes → Autoresponder E
  unfolding set_rule_owner
  set_owner ar name owner = record ar { rules = set_rule_owner ar.rules name owner }

  remove_rule : List (Rule E) → Bytes → List (Rule E)
  remove_rule [] name = []
  remove_rule (r ∷ rs) name =
      let rest = remove_rule rs name in if same_text r.name name then rs else r ∷ rest

  -- `sm_autoresponder_remove`
  pub remove : Autoresponder E → Bytes → Bool × Autoresponder E
  unfolding remove_rule
  remove ar name = (has_rule ar.rules name, record ar { rules = remove_rule ar.rules name })

  -- Is the rule looked at: is it enabled, and its cooldown over?
  pub is_ready : ℕ → Rule E → Bool
  is_ready ts r =
      r.enabled && not (ltb 0 r.last_fire_time && ltb ts (r.last_fire_time + r.cooldown))

  abbrev pub fired_rule : ℕ → E → Rule E → Rule E
  fired_rule ts e r = record r {
    compiled = e;
    last_fire_time = ts;
    enabled = r.enabled && not r.once;
  }

  -- The loop of `sm_autoresponder_feed` from the rule `i` on, with `room` places left in `out`: what
  -- fires, and the rules. `from` is `search_start`.
  pub fire_rules : Matcher E → Bytes → ℕ → ℕ → ℕ → ℕ → List (Rule E) → List Fired × List (Rule E)
  fire_rules m window from ts i room [] = ([], [])
  fire_rules m window from ts i room (r ∷ rs) =
      let (found, e) = m.exec r.compiled (drop from window) in
      elim (room == 0) [
        | true ↦ ([], r ∷ rs)
        | false ↦ elim (is_ready ts r) [
          | false ↦
              let (fired, rest) = fire_rules m window from ts (i + 1) room rs in (fired, r ∷ rest)
          | true ↦ elim found [
            | none ↦
                let (fired, rest) = fire_rules m window from ts (i + 1) room rs in
                (fired, record r { compiled = e } ∷ rest)
            | some off ↦
                let (fired, rest) = fire_rules m window from ts (i + 1) (room - 1) rs in
                let f : Fired = record {
                  rule_index = i;
                  response = r.response;
                  name = copied 64 r.name;
                  matched_text = line_text window (from + off);
                } in
                (f ∷ fired, fired_rule ts e r ∷ rest)
          ]
        ]
      ]

  -- `sm_autoresponder_feed`
  pub feed : Matcher E → Autoresponder E → Bytes → ℕ → ℕ → List Fired × Autoresponder E
  feed m ar input ts max_out =
      let w = window_append ar.window input in
      let from = line_start w.bytes w.search_offset in
      let (fired, rules) = fire_rules m w.bytes from ts 0 max_out ar.rules in
      if length input == 0 || length ar.rules == 0 || ar.window.cap == 0 || max_out == 0
      then ([], ar)
      else (
        fired,
        record ar { rules = rules; window = record w { search_offset = length w.bytes } },
      )
