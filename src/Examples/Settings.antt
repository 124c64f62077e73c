-- ===== src/Examples/Settings.antt =====
-- The theorems on the settings of a provider and on the forwarded headers at concrete inputs. The
-- JSON of the examples knows a provider before and after a configuration.
use native.Mathlib.Decide.{ℕ_discrete}
use vaulthook.Prelude.{
  Text, if◌then◌else◌, trim_space, str_eq, eq_iff, Bool-cases, inl, inr, false≢true, ◌∙◌, ◌≡◌, refl,
  sym, ap, subst, String, Option, none, some, [], ◌∷◌, codes, pos,
}
use vaulthook.Providers.Headers.{Header, Parsed, set_forward_headers, github_allowed, is_allowed}
use vaulthook.Providers.Headers.Allowed.{IsForwarded, set_forward_headers-IsForwarded}
use vaulthook.Prelude.{canonical_header_key, true}
use vaulthook.Model.{Result, ok, Provider}
use vaulthook.Crypto.{decrypt_signing_key, Checked, passed, encrypt_signing_key}
use vaulthook.Database.{find_provider}
use vaulthook.Crypto.Roundtrip.{decrypt-encrypt}
use vaulthook.Providers.Cache.{all_rows, show_all, shown, shown_secret, add_shown, list_providers}
use vaulthook.Providers.Cache.Shown.{in_clear, configure-shown}
use vaulthook.Providers.Cache.InSync.{InSync, configure-InSync}
use vaulthook.Providers.Service.{
  cache_get, configure, save, configure_row, cache_set, configured, Json, Store, Call, with_config,
}
use vaulthook.Examples.{shop}
use vaulthook.Examples.Receivers.{cipher, nonce, nonce_bytes}

String-discrete : Discrete String
String-discrete s t = elim (Bool-cases (str_eq s t)) [
  | inl e ↦ yes ((eq_iff s t).0 e)
  | inr e ↦ no (λ p. false≢true (sym e ∙ (eq_iff s t).1 p))
]

Provider-discrete : Discrete Provider
Provider-discrete = hlevel (ℕ_discrete, String-discrete)

abbrev call : Call
call = record {
  id = some 1;
  sec = codes " whsec ";
  des = "http://shop/new";
  max_retry = pos 5;
  max_req_sec = pos 10;
  nonce = some nonce;
  row_fault = none;
  cache_fault = none;
}

abbrev received : Parsed
received = (codes "x-github-event", "push" ∷ []) ∷ (codes "Cookie", "a=b" ∷ []) ∷ []

abbrev read_received : String → Result Parsed
read_received _ = ok received

set_forward_headers-IsForwarded_example :
    (h : Header) × (set_forward_headers read_received github_allowed "{}" [] ≡ ok h)
    × IsForwarded github_allowed h
set_forward_headers-IsForwarded_example =
    set_forward_headers-IsForwarded read_received "{}" received refl github_allowed

event_is_allowed : is_allowed github_allowed (codes "x-github-event") ≡ true
unfolding canonical_header_key
event_is_allowed = refl

abbrev key_of : Checked Text → Text
key_of (passed key) = key
key_of _ = []

abbrev new_key : Text
new_key = key_of (encrypt_signing_key cipher [] (some nonce) (codes "whsec"))

abbrev new_shop : Provider
new_shop = with_config new_key "http://shop/new" 5 10 shop

write_two : (p : Provider) → Dec (p ≡ new_shop) → Dec (p ≡ shop) → Option String
write_two p (yes e) d = some "new"
write_two p (no n) (yes e) = some "old"
write_two p (no n) (no m) = none

read_two : String → Provider
read_two s = if str_eq s "new" then new_shop else shop

read_two-write_two :
    (p : Provider) (d : Dec (p ≡ new_shop)) (d' : Dec (p ≡ shop)) (s : String)
    → write_two p d d' ≡ some s
    → ok (read_two s) ≡ ok p
unfolding write_two read_two
read_two-write_two p (yes e) d s h = ap (λ t. ok (read_two t)) (sym (ap value h)) ∙ ap ok (sym e)
  where
    value : Option String → String
    value none = ""
    value (some t) = t
read_two-write_two p (no n) (yes e) s h =
    ap (λ t. ok (read_two t)) (sym (ap value h)) ∙ ap ok (sym e)
  where
    value : Option String → String
    value none = ""
    value (some t) = t
read_two-write_two p (no n) (no m) s h = absurd (subst IsNone h tt)
  where
    IsNone : Option String → Type 0
    IsNone none = Unit
    IsNone (some t) = ⊥

pub json : Json
json = record {
  serialize = λ p. write_two p (Provider-discrete p new_shop) (Provider-discrete p shop);
  unmarshal = λ s. ok (read_two s);
  unmarshal_serialize =
      λ p s h. read_two-write_two p (Provider-discrete p new_shop) (Provider-discrete p shop) s h;
}

write_new :
    (d : Dec (new_shop ≡ new_shop)) (d' : Dec (new_shop ≡ shop))
    → write_two new_shop d d' ≡ some "new"
unfolding write_two
write_new (yes e) d = refl
write_new (no n) d = absurd (n refl)

abbrev pub synced : Store
synced = record { rows = shop ∷ []; cache = ("Shopify", "old") ∷ [] }

synced-InSync : InSync json synced
unfolding cache_get json read_two
synced-InSync = (refl, tt)

written : json.serialize new_shop ≡ some "new"
unfolding json
written = write_new (Provider-discrete new_shop new_shop) (Provider-discrete new_shop shop)

succeeds : (configure json cipher [] call synced).0 ≡ configured new_shop
unfolding configure save configure_row find_provider trim_space cache_set encrypt_signing_key cipher
succeeds = simp (written, cache_set) refl

configure-InSync_example : InSync json (configure json cipher [] call synced).1
configure-InSync_example =
    configure-InSync json cipher [] call synced new_shop (refl, nonce_bytes) synced-InSync (tt, tt)
      (tt, tt) succeeds

opened : decrypt_signing_key cipher [] new_key ≡ passed (codes "whsec")
unfolding encrypt_signing_key cipher
opened = decrypt-encrypt cipher [] nonce (codes "whsec") refl refl nonce_bytes

abbrev listed_shop : Provider
listed_shop = record new_shop { signing_secret = codes "whsec" }

rows_after : (configure json cipher [] call synced).1.rows ≡ new_shop ∷ []
unfolding configure save configure_row find_provider trim_space cache_set encrypt_signing_key cipher
rows_after = simp (written, cache_set) refl

listed :
    list_providers cipher [] none (configure json cipher [] call synced).1.rows
    ≡ passed (listed_shop ∷ [])
unfolding list_providers all_rows show_all shown
listed =
    ap (list_providers cipher [] none) rows_after
    ∙ ap (λ k. add_shown cipher [] (shown_secret cipher [] new_shop k) (passed [])) opened

configure-shown_example :
    find_provider 1 (listed_shop ∷ []) ≡ some (in_clear cipher [] json call synced new_shop)
configure-shown_example =
    configure-shown cipher [] json call synced 1 new_shop (listed_shop ∷ []) (refl, nonce_bytes)
      refl succeeds listed
