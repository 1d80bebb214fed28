-- ===== src/Modem/Store.antt =====
-- The message store of the modem: internal/modem/store.go.
pub mod Heads
pub mod Selected
pub mod Erases
use at_gateway.Prelude.{
  ℕ, suc, ◌≡◌, String, Bool, true, false, not, ◌&&◌, ◌||◌, Option, none, some, List, [], ◌∷◌,
  if◌then◌else◌, ◌==◌, string_eq, select_where,
}
use at_gateway.Modem.Text.{
  ℤ, pos, negsuc, cut_prefix, has_prefix, cut_after, split_commas, trim_space, trim_quotes, atoi,
  is_hex, upper_is,
}
use at_gateway.Modem.Domain.{
  Command, select_store, read_at, delete_at, list_all, ModemError, no_stored_line,
  not_stored_reference, of_command, Result, done, failed, ModemEnv, Commands, ModemWorld,
}
use at_gateway.Modem.Commands.{exec}

-- `storedMemoryID`.
unfoldable pub stored_memory_id : String → Option ℕ
stored_memory_id name =
    if upper_is name "ME" || upper_is name "SM"
    then some 0
    else if upper_is name "MT"
    then some 1
    else none

-- The name in upper case, if it is one of the names of `storedMemoryID`.
abbrev known_name : String → Option String
known_name name =
    if upper_is name "ME"
    then some "ME"
    else if upper_is name "SM"
    then some "SM"
    else if upper_is name "MT"
    then some "MT"
    else none

abbrev reference_index : String → Option ℤ → Result (String × ℕ)
reference_index name none = failed not_stored_reference
reference_index name (some (negsuc n)) = failed not_stored_reference
reference_index name (some (pos n)) = done (name, n)

abbrev reference_name : Option String → String → Result (String × ℕ)
reference_name none index = failed not_stored_reference
reference_name (some name) index = reference_index name (atoi (trim_space index))

abbrev reference_fields : List String → Result (String × ℕ)
reference_fields (name ∷ index ∷ fields) =
    reference_name (known_name (trim_quotes (trim_space name))) index
reference_fields _ = failed not_stored_reference

abbrev reference_payload : Option String → Result (String × ℕ)
reference_payload none = failed not_stored_reference
reference_payload (some payload) = reference_fields (split_commas payload)

-- `parseStoredReference`.
unfoldable pub parse_stored_reference : String → Result (String × ℕ)
parse_stored_reference head = reference_payload (cut_after head "+CMTI:")

-- Whether a line belongs to the command with a prefix.
abbrev pub belongs : String → String → Bool
belongs want line = not (has_prefix line "+" && not (has_prefix line want))

-- `dropURCHeads`.
unfoldable pub drop_urc_heads : List String → String → List String
drop_urc_heads lines want = select_where (belongs want) lines

abbrev hex_field : String → Option String
hex_field s = if s == "" then none else if is_hex s then some s else none

abbrev fourth_field : List String → Option String
fourth_field (a ∷ b ∷ c ∷ d ∷ fields) = hex_field (trim_space d)
fourth_field _ = none

abbrev body_or : List String → Option String → Option String
body_or [] inline = inline
body_or (line ∷ lines) inline =
    let body = trim_space line in if body == "" then inline else some body

abbrev header_and_body : Option String → List String → Option String
header_and_body none lines = none
header_and_body (some header) lines = body_or lines (fourth_field (split_commas header))

abbrev positional : String → List String → Option String
positional want [] = none
positional want (line ∷ lines) = header_and_body (cut_prefix line want) lines

-- `storedPDU`.
unfoldable pub stored_pdu : List String → String → Option String
unfolding drop_urc_heads
stored_pdu lines want = positional want (drop_urc_heads lines want)

abbrev add_index : Option ℤ → List ℕ → List ℕ
add_index (some (pos n)) indices = n ∷ indices
add_index _ indices = indices

abbrev field_index : List String → List ℕ → List ℕ
field_index [] indices = indices
field_index (s ∷ fields) indices = add_index (atoi (trim_space s)) indices

abbrev header_index : Option String → List ℕ → List ℕ
header_index none indices = indices
header_index (some after) indices = field_index (split_commas after) indices

-- `listedIndices`.
unfoldable pub listed_indices : List String → List ℕ
listed_indices [] = []
listed_indices (line ∷ lines) = header_index (cut_after line "+CMGL:") (listed_indices lines)

abbrev set_store : String → ModemWorld → ModemWorld
set_store mem w = record w { commands = record (w.commands) { selected_store = mem } }

store_selected : String → Result (List String) × ModemWorld → Option ModemError × ModemWorld
store_selected mem (failed e, w) = (some e, w)
store_selected mem (done lines, w) = (none, set_store mem w)

pdu_result : Command → Option String → Result String
pdu_result c none = failed (of_command c no_stored_line)
pdu_result c (some pdu) = done pdu

read_lines : Command → Result (List String) × ModemWorld → Result String × ModemWorld
unfolding stored_pdu pdu_result
read_lines c (failed e, w) = (failed e, w)
read_lines c (done lines, w) = (pdu_result c (stored_pdu lines "+CMGR:"), w)

delete_lines : Command → Result (List String) × ModemWorld → Option ModemError × ModemWorld
delete_lines c (failed e, w) = (some (of_command c e), w)
delete_lines c (done lines, w) = (none, w)

list_lines : Result (List String) × ModemWorld → Result (List ℕ) × ModemWorld
unfolding listed_indices
list_lines (failed e, w) = (failed e, w)
list_lines (done lines, w) = (done (listed_indices lines), w)

module _ {Tpdu : Type 0} (env : ModemEnv Tpdu) where
  -- `selectStoreLocked`.
  unfoldable pub select_store_locked : String → ModemWorld → Option ModemError × ModemWorld
  unfolding exec store_selected
  select_store_locked mem w =
      if mem == "" || mem == w.commands.selected_store
      then (none, w)
      else store_selected mem (exec env (select_store mem) none w)

  -- A command on the store that was selected before.
  on_store : Command → Option ModemError × ModemWorld → Result (List String) × ModemWorld
  unfolding exec
  on_store c (some e, w) = (failed e, w)
  on_store c (none, w) = exec env c none w

  -- `ReadStoredMessage`.
  unfoldable pub read_stored_message : String → ℕ → ModemWorld → Result String × ModemWorld
  unfolding select_store_locked on_store read_lines
  read_stored_message mem index w =
      read_lines (read_at mem index) (on_store (read_at mem index) (select_store_locked mem w))

  delete_after : String → ℕ → Option ModemError × ModemWorld → Option ModemError × ModemWorld
  unfolding exec delete_lines
  delete_after mem index (some e, w) = (some e, w)
  delete_after mem index (none, w) =
      delete_lines (delete_at mem index) (exec env (delete_at mem index) none w)

  -- `DeleteStoredMessage`.
  unfoldable pub delete_stored_message : String → ℕ → ModemWorld → Option ModemError × ModemWorld
  unfolding select_store_locked delete_after
  delete_stored_message mem index w = delete_after mem index (select_store_locked mem w)

  -- `ListStoredMessages`.
  unfoldable pub list_stored_messages : String → ModemWorld → Result (List ℕ) × ModemWorld
  unfolding select_store_locked on_store list_lines
  list_stored_messages mem w = list_lines (on_store (list_all mem) (select_store_locked mem w))
