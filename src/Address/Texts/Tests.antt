-- ===== src/Address/Texts/Tests.antt =====
-- Runs of the making and the lookup of addresses.
use libnavajo.Base.{ℕ, ◌≡◌, refl, Bool, true, false, [], ◌∷◌, Option, none, some, Bytes, codes}
use libnavajo.Address.Texts.{
  inet, inet6, NameService, null_address, address_of_ip, assign_address, from_string, from_hostname,
  str,
}

-- A service that reads every text as the same address.
abbrev service : NameService
service = record {
  inet_pton_v4 = λ _. some 16777343;
  inet_pton_v6 = λ _. none;
  inet_ntoa = λ _. codes "127.0.0.1";
  inet_ntop_v6 = λ _. some (codes "::");
  getaddrinfo = λ _. some (inet 1 ∷ inet6 (2 ∷ []) ∷ inet 3 ∷ []);
  getnameinfo = λ _ _. none;
}

loopback_read : from_string service (codes "127.0.0.1") ≡ some (address_of_ip (inet 16777343))
unfolding from_string libnavajo.Base.find_byte libnavajo.Server.Text.c_str
loopback_read = refl

colon_refused : from_string service (codes ":1") ≡ none
unfolding from_string libnavajo.Base.find_byte libnavajo.Server.Text.c_str
colon_refused = refl

first_preferred : from_hostname service (codes "h") true ≡ some (address_of_ip (inet 1))
unfolding from_hostname libnavajo.Server.Text.c_str
first_preferred = refl

-- Without the preference an address of version 4 alone is not returned.
only_v4_dropped :
    from_hostname (record service { getaddrinfo = λ _. some (inet 1 ∷ []) }) (codes "h") false
    ≡ none
unfolding from_hostname libnavajo.Server.Text.c_str
only_v4_dropped = refl

-- The assignment of an address that is not set.
unset_assigned : str service (assign_address null_address null_address) ≡ codes "::"
unset_assigned = refl
