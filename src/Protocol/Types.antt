-- ===== src/Protocol/Types.antt =====
-- src/protocol.c: the types of the messages and their names.
use smolmux.Base.{
  codes, ℕ, Option, none, some, List, [], ◌∷◌, Bytes, ◌≡◌, refl, ◌==◌, same_text, if◌then◌else◌,
}

-- `sm_msg_type_t`
pub data MsgType : Type 0 where
  type_hello type_welcome type_send type_send_expect type_listen_expect type_output type_input_echo
        type_expect_result type_takeover type_release type_status type_status_response
        type_pin_control type_set_baud type_suspend type_resume type_suspended type_resumed
        type_history_request type_history_response type_incidents_request type_incidents_response
        type_configure_anomaly type_anomaly type_interrupt_autoboot type_autoboot_result
        type_boot_stage type_boot_stall type_configure_autoresponder type_autoresponders_request
        type_autoresponders_response type_autoresponder_fired type_link_down type_link_up type_error
        type_unknown :
      MsgType

-- The value of the enumeration.
unfoldable pub number : MsgType → ℕ
number type_hello = 0
number type_welcome = 1
number type_send = 2
number type_send_expect = 3
number type_listen_expect = 4
number type_output = 5
number type_input_echo = 6
number type_expect_result = 7
number type_takeover = 8
number type_release = 9
number type_status = 10
number type_status_response = 11
number type_pin_control = 12
number type_set_baud = 13
number type_suspend = 14
number type_resume = 15
number type_suspended = 16
number type_resumed = 17
number type_history_request = 18
number type_history_response = 19
number type_incidents_request = 20
number type_incidents_response = 21
number type_configure_anomaly = 22
number type_anomaly = 23
number type_interrupt_autoboot = 24
number type_autoboot_result = 25
number type_boot_stage = 26
number type_boot_stall = 27
number type_configure_autoresponder = 28
number type_autoresponders_request = 29
number type_autoresponders_response = 30
number type_autoresponder_fired = 31
number type_link_down = 32
number type_link_up = 33
number type_error = 34
number type_unknown = 35

-- `msg_type_map`
abbrev pub msg_type_map : List (Bytes × MsgType)
msg_type_map =
    (codes "hello", type_hello)
    ∷ (codes "welcome", type_welcome)
    ∷ (codes "send", type_send)
    ∷ (codes "send_expect", type_send_expect)
    ∷ (codes "listen_expect", type_listen_expect)
    ∷ (codes "output", type_output)
    ∷ (codes "input_echo", type_input_echo)
    ∷ (codes "expect_result", type_expect_result)
    ∷ (codes "takeover", type_takeover)
    ∷ (codes "release", type_release)
    ∷ (codes "status", type_status)
    ∷ (codes "status_response", type_status_response)
    ∷ (codes "pin_control", type_pin_control)
    ∷ (codes "set_baud", type_set_baud)
    ∷ (codes "suspend", type_suspend)
    ∷ (codes "resume", type_resume)
    ∷ (codes "suspended", type_suspended)
    ∷ (codes "resumed", type_resumed)
    ∷ (codes "history_request", type_history_request)
    ∷ (codes "history_response", type_history_response)
    ∷ (codes "incidents_request", type_incidents_request)
    ∷ (codes "incidents_response", type_incidents_response)
    ∷ (codes "configure_anomaly", type_configure_anomaly)
    ∷ (codes "anomaly", type_anomaly)
    ∷ (codes "interrupt_autoboot", type_interrupt_autoboot)
    ∷ (codes "autoboot_result", type_autoboot_result)
    ∷ (codes "boot_stage", type_boot_stage)
    ∷ (codes "boot_stall", type_boot_stall)
    ∷ (codes "configure_autoresponder", type_configure_autoresponder)
    ∷ (codes "autoresponders_request", type_autoresponders_request)
    ∷ (codes "autoresponders_response", type_autoresponders_response)
    ∷ (codes "autoresponder_fired", type_autoresponder_fired)
    ∷ (codes "link_down", type_link_down)
    ∷ (codes "link_up", type_link_up)
    ∷ (codes "error", type_error)
    ∷ []

-- The loop of `lookup_type`.
unfoldable pub type_in : Bytes → List (Bytes × MsgType) → MsgType
type_in name [] = type_unknown
type_in name ((n, t) ∷ rest) =
    let later = type_in name rest in if same_text n name then t else later

unfoldable pub lookup_type : Option Bytes → MsgType
lookup_type none = type_unknown
lookup_type (some name) = type_in name msg_type_map

-- The loop of `sm_msg_type_name`.
pub name_in : MsgType → List (Bytes × MsgType) → Bytes
name_in type [] = codes "unknown"
name_in type ((n, t) ∷ rest) =
    let later = name_in type rest in if number t == number type then n else later

-- `sm_msg_type_name`
pub type_name : MsgType → Bytes
type_name type = name_in type msg_type_map

-- The type of a message is found again by its name; for the type of unknown messages too.
pub lookup_type-type_name : (t : MsgType) → lookup_type (some (type_name t)) ≡ t
unfolding number type_in lookup_type name_in type_name
lookup_type-type_name type_hello = refl
lookup_type-type_name type_welcome = refl
lookup_type-type_name type_send = refl
lookup_type-type_name type_send_expect = refl
lookup_type-type_name type_listen_expect = refl
lookup_type-type_name type_output = refl
lookup_type-type_name type_input_echo = refl
lookup_type-type_name type_expect_result = refl
lookup_type-type_name type_takeover = refl
lookup_type-type_name type_release = refl
lookup_type-type_name type_status = refl
lookup_type-type_name type_status_response = refl
lookup_type-type_name type_pin_control = refl
lookup_type-type_name type_set_baud = refl
lookup_type-type_name type_suspend = refl
lookup_type-type_name type_resume = refl
lookup_type-type_name type_suspended = refl
lookup_type-type_name type_resumed = refl
lookup_type-type_name type_history_request = refl
lookup_type-type_name type_history_response = refl
lookup_type-type_name type_incidents_request = refl
lookup_type-type_name type_incidents_response = refl
lookup_type-type_name type_configure_anomaly = refl
lookup_type-type_name type_anomaly = refl
lookup_type-type_name type_interrupt_autoboot = refl
lookup_type-type_name type_autoboot_result = refl
lookup_type-type_name type_boot_stage = refl
lookup_type-type_name type_boot_stall = refl
lookup_type-type_name type_configure_autoresponder = refl
lookup_type-type_name type_autoresponders_request = refl
lookup_type-type_name type_autoresponders_response = refl
lookup_type-type_name type_autoresponder_fired = refl
lookup_type-type_name type_link_down = refl
lookup_type-type_name type_link_up = refl
lookup_type-type_name type_error = refl
lookup_type-type_name type_unknown = refl
