-- ===== src/Tests/Visiting.antt =====
-- The passwordless server from its boot to a login, with small crates for its own relying party.
use passkey_auth_rs.Prelude.{
  ℕ, String, true, false, ◌≡◌, refl, some, none, [], ◌∷◌, list_beq, list_eq, any, as_bytes, as_i64,
  test_bits, List, ◌==◌, nat_eq, string_eq, if◌then◌else◌,
}
use passkey_auth_rs.Error.{ok, Try, success, failure}
use passkey_auth_rs.Slice.{index, slice, slice_from, to_array}
use passkey_auth_rs.Deps.{Libs, Parsed, CborValue, end, entry, Sha256HasSize}
use passkey_auth_rs.Types.{
  b64url_decode, b64url_decode_strict, from_b64url, random, now_secs, PasskeyCredential,
  RegistrationResponse, AuthenticationResponse,
}
use passkey_auth_rs.ClientData.{decoder, check_parsed, validate}
use passkey_auth_rs.AuthData
use passkey_auth_rs.AuthData.{
  AuthenticatorData, parse_attested, parse_optional, check_extensions, cose_blob_length,
  user_present, user_verified,
}
use passkey_auth_rs.AuthData.Layout.{layout}
use passkey_auth_rs.Cose
use passkey_auth_rs.Cose.{build, build_es256}
use passkey_auth_rs.Crypto.{verify, verify_es256}
use passkey_auth_rs.Attestation
use passkey_auth_rs.Attestation.U2f.{verify_statement}
use passkey_auth_rs.Ceremony.{Webauthn, any_attachment, decode_b64, sha256_32, check_not_expired}
use passkey_auth_rs.Ceremony.Start.{start_registration, start_authentication, build_auth_challenge}
use passkey_auth_rs.Ceremony.Registration.{is_allowed, finish_registration}
use passkey_auth_rs.Ceremony.Authentication.{
  is_listed, check_user_handle, check_counter, finish_authentication,
}
use passkey_auth_rs.Servers.Handler.{reply}
use passkey_auth_rs.Servers.Table.{get_entry, set_entry, remove_entry, take_field}
use passkey_auth_rs.Servers.Credentials.{find_credential, set_counter}
use passkey_auth_rs.Servers.Cookies.{sid_from_cookies, get_or_create_sid, trim, is_whitespace}
use passkey_auth_rs.Servers.Cookies.Echo.{sid_from_cookies-echo}
use passkey_auth_rs.Passwordless.{
  AppState, relying_party, register_start, register_finish, authenticate_start, authenticate_finish,
  take_reg_state, take_auth_state, put_reg_state, put_auth_state, rotate, save_counter, handle_of,
  add_credential, contains_key, find_user, base64_decode_lenient,
}
use passkey_auth_rs.Passwordless.Takeover.{started, after_first, after_second, registrations_join}
use passkey_auth_rs.Passwordless.Requests.{
  starts_registration, finishes_registration, starts_authentication, finishes_authentication, serve,
  Reachable, at_boot, served,
}
use passkey_auth_rs.Passwordless.Login.{signed_in_as}
use passkey_auth_rs.Passwordless.Handles.{IsConsistent}
use passkey_auth_rs.Passwordless.Invariant.{Reachable-IsConsistent}
use passkey_auth_rs.Passwordless.Access.{Identified, signed_in_as-Identified}
use passkey_auth_rs.Passwordless.Lenient.{decoded_bytes, base64_decode_lenient-eq-b64url_decode}
use passkey_auth_rs.Tests.Unary.{encode, decode, decode_from, prepend, repeat}
use passkey_auth_rs.Tests.Demo
use passkey_auth_rs.Tests.Demo.{world, zeros, challenge_bytes, attested, key_es}

-- The hash of "localhost".
abbrev local_hash : List ℕ
local_hash = 9 ∷ zeros 31

abbrev created : AuthenticatorData
created = record Demo.created { rp_id_hash = local_hash }

abbrev asserted : AuthenticatorData
asserted = record Demo.asserted { rp_id_hash = local_hash }

abbrev envelope : CborValue
envelope = CborValue.map (
    entry (CborValue.text "fmt") (CborValue.text "none") (
      entry (CborValue.text "attStmt") (CborValue.map end)
        (entry (CborValue.text "authData") (CborValue.bytes (layout created [])) end)))

abbrev reader : List ℕ → Try (CborValue × ℕ)
reader [] = failure "empty"
reader (b ∷ _) =
    if b == 0xa1
    then success (key_es, 1)
    else if b == 0xa2
    then success (envelope, 1)
    else failure "reserved"

abbrev parsed : String → Parsed
parsed kind = record (Demo.parsed kind) { origin = "http://localhost:3000" }

abbrev json : List ℕ → Try Parsed
json [] = failure "empty"
json (b ∷ _) =
    if b == 1
    then success (parsed "webauthn.create")
    else if b == 2
    then success (parsed "webauthn.get")
    else failure "no JSON"

abbrev libs : Libs
libs = record Demo.libs { from_reader = reader; from_slice = json }

has_size : Sha256HasSize libs
has_size bytes = refl

abbrev wa : Webauthn
wa = record {
  rp_id = record { name = "localhost" };
  rp_name = "Passkey passwordless demo";
  origin = "http://localhost:3000";
  require_uv = true;
  attachment = any_attachment;
  strict_base64 = false;
  require_user_handle = false;
}

main : relying_party false ≡ ok wa
unfolding relying_party
main = refl

abbrev answer : RegistrationResponse
answer = record {
  id = encode (7 ∷ []);
  transports = "internal" ∷ [];
  attestation_object = encode (0xa2 ∷ []);
  client_data_json = encode (1 ∷ []);
}

abbrev assertion : AuthenticationResponse
assertion = record {
  id = encode (7 ∷ []);
  authenticator_data = encode (layout asserted []);
  signature = encode (65 ∷ 69 ∷ []);
  client_data_json = encode (2 ∷ []);
  user_handle = some (encode (5 ∷ zeros 15));
}

abbrev booted : AppState
booted = record { users = []; sessions = []; wa = wa }

-- "alice" has registered and logged in.
entered : AppState
entered = serve libs world (finishes_authentication (some "sid=a1") assertion "b2") (
    serve libs world (starts_authentication (some "sid=a1") "") (
      serve libs world (finishes_registration (some "sid=a1") answer)
        (serve libs world (starts_registration " alice" (some "sid=a1") "") booted)))

entered-Reachable : Reachable libs wa entered
unfolding entered
entered-Reachable =
    served world _ _ (served world _ _ (served world _ _ (served world _ _ at_boot)))

enters : signed_in_as entered "b2" ≡ some "alice"
unfolding entered serve register_start register_finish authenticate_start authenticate_finish
    take_reg_state take_auth_state put_reg_state put_auth_state rotate save_counter handle_of
    add_credential contains_key find_user base64_decode_lenient get_entry set_entry remove_entry
    take_field find_credential set_counter sid_from_cookies get_or_create_sid trim
    start_registration start_authentication build_auth_challenge random from_b64url b64url_decode
    finish_registration finish_authentication check_not_expired now_secs validate decoder
    check_parsed b64url_decode_strict decode_b64 sha256_32 to_array encode repeat decode decode_from
    prepend list_beq Attestation.parse Attestation.collect Attestation.assign AuthData.parse index
    slice slice_from parse_attested parse_optional check_extensions cose_blob_length user_present
    user_verified test_bits as_bytes Cose.parse Cose.collect Cose.assign build build_es256
    is_allowed any verify_statement as_i64 is_listed check_user_handle verify verify_es256
    check_counter
enters = refl

signed_in_as-Identified_example : Identified libs wa "b2" "alice" entered
signed_in_as-Identified_example =
    signed_in_as-Identified libs false wa has_size main "b2" "alice" entered-Reachable enters

Reachable-IsConsistent_example : IsConsistent libs wa entered
Reachable-IsConsistent_example = Reachable-IsConsistent libs wa entered-Reachable

base64_decode_lenient-eq-b64url_decode_example :
    base64_decode_lenient libs (encode (7 ∷ []))
    ≡ decoded_bytes (b64url_decode libs (encode (7 ∷ [])))
base64_decode_lenient-eq-b64url_decode_example =
    base64_decode_lenient-eq-b64url_decode libs (encode (7 ∷ []))

sid_from_cookies-echo_example :
    (sid_from_cookies (some "sid=00ff") ≡ some "00ff")
    × (sid_from_cookies (some "sid=00ff; theme=dark") ≡ some "00ff")
unfolding is_whitespace
sid_from_cookies-echo_example =
    sid_from_cookies-echo "00ff" " theme=dark"
      (refl, refl, (refl, refl, (refl, refl, (refl, refl, tt))))

-- Two sessions register the name "alice" at the same time.
abbrev credential : PasskeyCredential
credential = record {
  id = attested.credential_id;
  public_key_cose = attested.public_key_cose;
  counter = 1;
  transports = "internal" ∷ [];
  aaguid = attested.aaguid;
}

first_sent : sid_from_cookies (some "sid=a1") ≡ some "a1"
unfolding sid_from_cookies
first_sent = refl

second_sent : sid_from_cookies (some "sid=e5") ≡ some "e5"
unfolding sid_from_cookies
second_sent = refl

trims : trim " alice" ≡ "alice"
unfolding trim
trims = refl

trims_nothing : trim "alice" ≡ "alice"
unfolding trim
trims_nothing = refl

free : get_entry booted.users "alice" ≡ none
unfolding get_entry
free = refl

accepted :
    finish_registration libs world wa (started libs world booted "alice") answer ≡ ok credential
unfolding finish_registration check_not_expired now_secs validate decoder check_parsed b64url_decode
    decode_b64 sha256_32 to_array encode repeat decode decode_from prepend list_beq
    Attestation.parse Attestation.collect Attestation.assign AuthData.parse index slice slice_from
    parse_attested parse_optional check_extensions cose_blob_length user_present user_verified
    test_bits as_bytes Cose.parse Cose.collect Cose.assign build build_es256 is_allowed any
    verify_statement as_i64 start_registration random handle_of
accepted = refl

registrations_join_example :
    ((after_first libs world world world world booted " alice" "alice"
        (some "sid=a1")
        (some "sid=e5")
        ""
        ""
        answer
        answer).1
      ≡ reply (record { is_ok = true; username = "alice" }))
    × ((after_second libs world world world world booted " alice" "alice"
          (some "sid=a1")
          (some "sid=e5")
          ""
          ""
          answer
          answer).1
        ≡ reply (record { is_ok = true; username = "alice" }))
    × (get_entry
          (after_second libs world world world world booted " alice" "alice"
            (some "sid=a1")
            (some "sid=e5")
            ""
            ""
            answer
            answer).0.users
          "alice"
        ≡ some (record {
          handle = handle_of libs "alice";
          credentials = credential ∷ credential ∷ [];
        }))
registrations_join_example =
    registrations_join libs world world world world booted " alice" "alice" (some "sid=a1")
      (some "sid=e5") "" "" answer answer "alice" "a1" "e5" credential credential trims
      trims_nothing refl free first_sent second_sent refl accepted accepted
