-- ===== src/Testutil/Records.antt =====
-- testutil/records.go: the constructors of test records. Class and TTL are not part of a record
-- here, and the counter of the serials is a state that the constructor of a SOA record passes on.
use dnshealth_exporter.Prelude.{ℕ, ◌+◌, ◌%◌, ◌^◌, List, [], ◌∷◌, ◌++◌, State, ◌>>=◌, return}
use dnshealth_exporter.Text.{Text, bytes}
use dnshealth_exporter.Dns.{Rr, Soa, a, aaaa, ns, mx, txt, cname, soa}

-- The value that init stores.
abbrev pub first_serial : ℕ
first_serial = 1_000_000

-- serialCounter.Add(1) on an atomic.Uint32
unfoldable pub next_serial : State ℕ ℕ
next_serial counter = let n = (counter + 1) % 2 ^ 32 in (n, n)

pub data SoaOption : Type 0 where
  serial refresh retry expire minttl : ℕ → SoaOption
  mname : Text → SoaOption

-- `fqdn` is dns.Fqdn, and `parse_ip` the printed form of net.ParseIP.
module _ (fqdn parse_ip : Text → Text) where
  unfoldable pub apply_option : SoaOption → Soa → Soa
  apply_option (serial n) s = record s { serial = n }
  apply_option (refresh n) s = record s { refresh = n }
  apply_option (retry n) s = record s { retry = n }
  apply_option (expire n) s = record s { expire = n }
  apply_option (minttl n) s = record s { minttl = n }
  apply_option (mname name) s = record s { mname = fqdn name }

  unfoldable pub apply_options : List SoaOption → Soa → Soa
  unfolding apply_option
  apply_options [] s = s
  apply_options (o ∷ os) s = apply_options os (apply_option o s)

  -- A serial is drawn before the options are applied, also where one of them sets it.
  unfoldable pub soa_record : Text → List SoaOption → State ℕ Rr
  unfolding next_serial apply_options
  soa_record zone opts = do
    n ← next_serial
    return (
        soa (fqdn zone) (
          apply_options opts (record {
            mname = bytes "ns1." ++ fqdn zone;
            serial = n;
            refresh = 3600;
            retry = 300;
            expire = 2_419_200;
            minttl = 300;
          })))

  unfoldable pub ns_record : (zone nameserver : Text) → Rr
  ns_record zone nameserver = ns (fqdn zone) (fqdn nameserver)

  unfoldable pub a_record : (name ip : Text) → Rr
  a_record name ip = a (fqdn name) (parse_ip ip)

  unfoldable pub aaaa_record : (name ipv6 : Text) → Rr
  aaaa_record name ipv6 = aaaa (fqdn name) (parse_ip ipv6)

  unfoldable pub cname_record : (name target : Text) → Rr
  cname_record name target = cname (fqdn name) (fqdn target)

  unfoldable pub txt_record : Text → List Text → Rr
  txt_record name strings = txt (fqdn name) strings

  unfoldable pub mx_record : Text → ℕ → Text → Rr
  mx_record zone preference exchange = mx (fqdn zone) (fqdn exchange) preference
