-- ===== src/Protocol/Message.antt =====
-- protocol.py: the message types with their codes, and `Message`.
use frp_python.Prelude.{
  if◌then◌else◌, ◌==◌, Bool-cases, is_some, codes, Dict, lookup, ℕ, ◌≡◌, refl, ap, inl, inr, Bool,
  ◌||◌, Option, none, some, List, [], ◌∷◌, nat_eq, string_eq, list_eq,
}
use frp_python.Py.Text.{Text}

-- What a payload holds: JSON's values and `bytes`. A number is a natural one, or stands by its text.
mutual
  pub data Value : Type 0 where
    null : Value
    bool : Bool → Value
    num : ℕ → Value
    number : Text → Value
    text : Text → Value
    raw : List ℕ → Value
    arr : Items → Value
    obj : Fields → Value

  pub data Fields : Type 0 where
    end : Fields
    field : Text → Value → Fields → Fields

  pub data Items : Type 0 where
    nil : Items
    cons : Value → Items → Items

-- `payload.get(key)`
unfoldable pub get : Text → Fields → Option Value
get k end = none
get k (field j v fs) = if j == k then some v else get k fs

-- `d.pop(key)`, on the dictionary that is left
unfoldable pub without : Text → Fields → Fields
without k end = end
without k (field j v fs) = if j == k then without k fs else field j v (without k fs)

-- The constants of `MessageType`; `data_msg` is `DATA`.
pub data MessageType : Type 0 where
  login login_resp register new_conn init_conn ping pong error close data_msg data_auth
        data_auth_resp http_new_conn http_resp_req stcp_register stcp_visitor_register
        stcp_visitor_register_resp stcp_new_visitor stcp_visitor_ready ftp_new_data ftp_data_ready
        remote_cmd remote_cmd_resp :
      MessageType

abbrev pub type_name : MessageType → Text
type_name login = codes "login"
type_name login_resp = codes "login_resp"
type_name register = codes "register"
type_name new_conn = codes "new_conn"
type_name init_conn = codes "init_conn"
type_name ping = codes "ping"
type_name pong = codes "pong"
type_name error = codes "error"
type_name close = codes "close"
type_name data_msg = codes "data"
type_name data_auth = codes "data_auth"
type_name data_auth_resp = codes "data_auth_resp"
type_name http_new_conn = codes "http_new_conn"
type_name http_resp_req = codes "http_resp_req"
type_name stcp_register = codes "stcp_register"
type_name stcp_visitor_register = codes "stcp_visitor_register"
type_name stcp_visitor_register_resp = codes "stcp_visitor_register_resp"
type_name stcp_new_visitor = codes "stcp_new_visitor"
type_name stcp_visitor_ready = codes "stcp_visitor_ready"
type_name ftp_new_data = codes "ftp_new_data"
type_name ftp_data_ready = codes "ftp_data_ready"
type_name remote_cmd = codes "remote_cmd"
type_name remote_cmd_resp = codes "remote_cmd_resp"

-- `_TYPE_TO_CODE`, as a function on the constants.
abbrev pub code_of : MessageType → ℕ
code_of login = 0x1
code_of login_resp = 0x2
code_of register = 0x3
code_of new_conn = 0x4
code_of init_conn = 0x5
code_of ping = 0x6
code_of pong = 0x7
code_of error = 0x8
code_of close = 0x9
code_of data_msg = 0xa
code_of data_auth = 0xb
code_of data_auth_resp = 0xc
code_of http_new_conn = 0xd
code_of http_resp_req = 0xe
code_of stcp_register = 0xf
code_of stcp_visitor_register = 0x10
code_of stcp_visitor_register_resp = 0x11
code_of stcp_new_visitor = 0x12
code_of stcp_visitor_ready = 0x13
code_of ftp_new_data = 0x14
code_of ftp_data_ready = 0x15
code_of remote_cmd = 0x16
code_of remote_cmd_resp = 0x17

abbrev pub all_types : List MessageType
all_types =
    login ∷ login_resp ∷ register ∷ new_conn ∷ init_conn ∷ ping ∷ pong ∷ error ∷ close ∷ data_msg
    ∷ data_auth ∷ data_auth_resp ∷ http_new_conn ∷ http_resp_req ∷ stcp_register
    ∷ stcp_visitor_register ∷ stcp_visitor_register_resp ∷ stcp_new_visitor ∷ stcp_visitor_ready
    ∷ ftp_new_data ∷ ftp_data_ready ∷ remote_cmd ∷ remote_cmd_resp ∷ []

entries : List MessageType → Dict Text ℕ
entries [] = []
entries (t ∷ ts) = (type_name t, code_of t) ∷ entries ts

flipped : Dict Text ℕ → Dict ℕ Text
flipped [] = []
flipped ((k, v) ∷ d) = (v, k) ∷ flipped d

-- `_TYPE_TO_CODE.get(t)`
unfoldable pub type_to_code : Text → Option ℕ
unfolding lookup entries
type_to_code t = lookup t (entries all_types)

-- `_CODE_TO_TYPE.get(c)`
unfoldable pub code_to_type : ℕ → Option Text
unfolding lookup entries flipped
code_to_type c = lookup c (flipped (entries all_types))

pub type_to_code-type_name : (t : MessageType) → type_to_code (type_name t) ≡ some (code_of t)
unfolding type_to_code
type_to_code-type_name login = refl
type_to_code-type_name _ = refl

pub code_to_type-code_of : (t : MessageType) → code_to_type (code_of t) ≡ some (type_name t)
unfolding code_to_type
code_to_type-code_of login = refl
code_to_type-code_of _ = refl

-- `Message`: its type is any value, since `from_dict` takes it as it comes.
pub record Message : Type 0 where
  pub type : Value
  pub payload : Fields

abbrev pub type_key : Text
type_key = codes "type"

-- `Message.to_dict`: a payload with a key `type` hides the message's own.
unfoldable pub to_dict : Message → Fields
to_dict m =
    field type_key (elim (get type_key m.payload) [ none ↦ m.type | some v ↦ v ])
      (without type_key m.payload)

-- How `Message.from_dict` can end.
pub data Parsed : Type 0 where
  message : Message → Parsed
  key_error : Parsed
  type_error : Parsed

-- `cls(msg_type, **data)`: keys named like the parameters of `__init__` are a `TypeError`.
unfoldable pub construct : Value → Fields → Parsed
construct t fs =
    if is_some (get (codes "msg_type") fs) || is_some (get (codes "self") fs)
    then type_error
    else message (record { type = t; payload = fs })

-- `Message.from_dict`: a value that is no dictionary has no `pop` that takes a text.
unfoldable pub from_dict : Value → Parsed
from_dict (obj fs) = elim (get type_key fs) [
  | none ↦ key_error
  | some t ↦ construct t (without type_key fs)
]
from_dict v = type_error

without_absent : (k : Text) (fs : Fields) → get k fs ≡ none → without k fs ≡ fs
unfolding get without
without_absent k end h = refl
without_absent k (field j v fs) h = elim (Bool-cases (j == k)) [
  | inl same ↦ cc (rw same at h)
  | inr other ↦ rw other (ap (field j v) (without_absent k fs (rw other at h)))
]

-- A payload that `from_dict` can take back: none of its keys is reserved.
pub record IsPlain (fs : Fields) : Type 0 where
  pub no_type : get type_key fs ≡ none
  pub no_msg_type : get (codes "msg_type") fs ≡ none
  pub no_self : get (codes "self") fs ≡ none

pub from_dict-to_dict : (m : Message) → IsPlain m.payload → from_dict (obj (to_dict m)) ≡ message m
unfolding to_dict from_dict construct get without
from_dict-to_dict m h = rw (
  h.no_type,
  without_absent type_key m.payload h.no_type,
  without_absent type_key m.payload h.no_type,
  h.no_msg_type,
  h.no_self,
)
