-- ===== src/Whois/Render.antt =====
-- internal/whois/render.go. `iso` is time.Time's Format("2006-01-02T15:04:05Z") after UTC().
use go_rdap_server.Base.{
  Bool, not, ◌&&◌, ◌||◌, List, [], ◌∷◌, ◌++◌, if◌then◌else◌, GoString, str, str_eq, Unicode,
  to_lower, trim_space, split, join, ◌==◌,
}
use go_rdap_server.Domain.{Time}
use go_rdap_server.Whois.Types.{WhoisContact, WhoisNameserver, WhoisDomain}

abbrev pub crlf : GoString
crlf = 13 ∷ 10 ∷ []

-- The closure `write`: nothing for an empty value.
unfoldable pub write : GoString → GoString → GoString
write k v = if str_eq v [] then [] else k ++ str ": " ++ v ++ crlf

unfoldable pub role_label : Unicode → GoString → GoString
role_label u role =
    let r = to_lower u role in
    if str_eq r (str "registrant")
    then str "Registrant:"
    else if str_eq r (str "administrative") || str_eq r (str "admin")
    then str "Administrative Contact:"
    else if str_eq r (str "technical") || str_eq r (str "tech")
    then str "Technical Contact:"
    else if str_eq r (str "billing")
    then str "Billing Contact:"
    else if str_eq r (str "abuse")
    then str "Abuse Contact:"
    else []

unfoldable pub dnssec_string : Bool → GoString
dnssec_string signed = if signed then str "signedDelegation" else str "unsignedDelegation"

module _ (u : Unicode) where
  unfoldable pub address_lines : List GoString → GoString
  unfolding write
  address_lines [] = []
  address_lines (line ∷ lines) = write (str "   Address") (trim_space u line) ++ address_lines lines

  unfoldable pub contact_fields : WhoisContact → GoString
  unfolding address_lines
  contact_fields c =
      if c.redacted
      then str "   " ++ str "Name" ++ str ": " ++ str "Redacted" ++ crlf
      else write (str "   Name") c.name
        ++ (write (str "   Organization") c.org
            ++ ((if str_eq c.address [] then [] else address_lines (split 10 c.address))
                ++ (write (str "   Email") c.email ++ write (str "   Phone") c.phone)))

  unfoldable pub contact_block : WhoisContact → GoString
  unfolding contact_fields role_label
  contact_block c =
      if str_eq (role_label u c.role) []
      then []
      else crlf ++ role_label u c.role ++ crlf ++ contact_fields c

  unfoldable pub contact_blocks : List WhoisContact → GoString
  unfolding contact_block
  contact_blocks [] = []
  contact_blocks (c ∷ cs) = contact_block c ++ contact_blocks cs

  unfoldable pub ip_lines : List GoString → GoString
  ip_lines [] = []
  ip_lines (ip ∷ ips) = (str "      " ++ ip ++ crlf) ++ ip_lines ips

  unfoldable pub nameserver_lines : List WhoisNameserver → GoString
  unfolding ip_lines
  nameserver_lines [] = []
  nameserver_lines (ns ∷ more) =
      (str "   " ++ ns.name ++ crlf) ++ ip_lines ns.ipv4 ++ nameserver_lines more

  unfoldable pub nameserver_block : List WhoisNameserver → GoString
  unfolding nameserver_lines
  nameserver_block [] = []
  nameserver_block (ns ∷ more) =
      (crlf ++ str "Name Server:" ++ crlf) ++ nameserver_lines (ns ∷ more)

  module _ (iso : Time → GoString) where
    abbrev date_text : Time → GoString
    date_text t = if t == 0 then [] else iso t

    unfoldable pub render_domain : WhoisDomain → GoString
    unfolding contact_blocks nameserver_block dnssec_string
    render_domain d =
        (str "Domain Name: " ++ d.ldh_name ++ crlf)
        ++ ((if not (str_eq d.unicode_name []) && not (str_eq d.unicode_name d.ldh_name)
              then write (str "Internationalized Domain Name") d.unicode_name
              else [])
            ++ (write (str "Registrar") d.registrar
                ++ (write (str "Registrar IANA ID") d.registrar_id
                    ++ (write (str "Registrant Organization") d.registrant
                        ++ (contact_blocks d.contacts
                            ++ (nameserver_block d.nameservers
                                ++ (write (str "DNSSEC") (dnssec_string d.dnssec)
                                    ++ (write (str "Creation Date") (date_text d.created_at)
                                        ++ (write (str "Updated Date") (date_text d.updated_at)
                                            ++ (write (str "Expiration Date")
                                                  (date_text d.expires_at)
                                                ++ (write (str "Status") (join (str " ") d.status)
                                                    ++ crlf)))))))))))
