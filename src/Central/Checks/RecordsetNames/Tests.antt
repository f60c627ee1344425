-- ===== src/Central/Checks/RecordsetNames/Tests.antt =====
-- A zone example.org with an address at www.
use designate_private.Prelude.{◌≡◌, ◌↔◌, refl, none, some, [], ◌∷◌, arith, true, false, inl, inr}
use designate_private.Prelude.Texts.{codes, split, ends_with}
use designate_private.Central.Checks.{
  ZoneRow, passed, refused, cname_at_apex, cname_shares_name, in_child_zone, not_in_zone,
  is_valid_ttl?,
}
use designate_private.Central.Checks.RecordsetNames.{
  RecordsetRow, Site, validate_recordset, is_outside, put,
}
use designate_private.Central.Checks.RecordsetNames.Suffix.{IsSuffix, is_outside-IsSuffix}
use designate_private.Central.Checks.RecordsetNames.Exclusive.{
  IsExclusive, validate_recordset-IsExclusive,
}

abbrev zone : ZoneRow
zone = record {
  id = 1;
  name = codes "example.org.";
  pool_id = 0;
  tenant_id = 5;
  parent_zone_id = none;
}

abbrev child : ZoneRow
child = record {
  id = 2;
  name = codes "sub.example.org.";
  pool_id = 0;
  tenant_id = 5;
  parent_zone_id = some 1;
}

abbrev www : RecordsetRow
www = record { id = 7; zone_id = 1; name = codes "www.example.org."; is_cname = false }

abbrev site : Site
site = record {
  zones = zone ∷ child ∷ [];
  recordsets = www ∷ [];
  max_len = 255;
  min_ttl = none;
  may_use_low_ttl = false;
}

refuses_apex :
    validate_recordset site zone none (codes "example.org.") true none 1 ≡ refused cname_at_apex
unfolding validate_recordset is_valid_ttl? ends_with
refuses_apex = refl

refuses_www :
    validate_recordset site zone none (codes "www.example.org.") true none 1
    ≡ refused cname_shares_name
unfolding validate_recordset is_valid_ttl? ends_with
refuses_www = refl

refuses_child :
    validate_recordset site zone none (codes "a.sub.example.org.") false none 1
    ≡ refused in_child_zone
unfolding validate_recordset is_valid_ttl? ends_with
refuses_child = refl

refuses_sibling :
    validate_recordset site zone none (codes "badexample.org.") false none 1 ≡ refused not_in_zone
unfolding validate_recordset is_valid_ttl? ends_with
refuses_sibling = refl

ftp_passes : validate_recordset site zone none (codes "ftp.example.org.") true none 1 ≡ passed tt
unfolding validate_recordset is_valid_ttl? ends_with
ftp_passes = refl

is_outside-IsSuffix_example :
    is_outside (codes "example.org.") (codes "www.example.org.") ≡ false
    ↔ IsSuffix (split (codes "example.org.")) (split (codes "www.example.org."))
is_outside-IsSuffix_example = is_outside-IsSuffix (codes "example.org.") (codes "www.example.org.")

www-IsExclusive : IsExclusive (www ∷ [])
www-IsExclusive r s (inl a) s_in c z n = ground arith
www-IsExclusive r s (inr a) s_in c z n = absurd a

validate_recordset-IsExclusive_example : IsExclusive (
    put
      (record { id = 8; zone_id = 1; name = codes "ftp.example.org."; is_cname = true })
      (www ∷ []))
validate_recordset-IsExclusive_example =
    validate_recordset-IsExclusive site zone none (codes "ftp.example.org.") true none 1 8
      ftp_passes (inl refl) www-IsExclusive
