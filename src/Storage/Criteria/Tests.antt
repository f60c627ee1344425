-- ===== src/Storage/Criteria/Tests.antt =====
-- Conditions as the services write them.
use designate_private.Prelude.{◌≡◌, refl, some, none}
use designate_private.Prelude.Texts.{codes}
use designate_private.Prelude.Decimal.{show}
use designate_private.Storage.Criteria.{
  at_most, between, one, text, read_value, read_text, read_between,
}
use designate_private.Storage.Criteria.Reading.{write_value, IsSimple-show, read_value-write_value}

below_test : read_value (one (text (codes "<=2015-01-01"))) ≡ some (at_most (codes "2015-01-01"))
unfolding read_value read_text
below_test = refl

spaces_test :
    read_value (one (text (codes "BETWEEN  1 , 20 "))) ≡ some (between (codes "1") (codes "20"))
unfolding read_value read_text read_between
spaces_test = refl

-- No second end is IndexError.
short_test : read_value (one (text (codes "BETWEEN 7"))) ≡ none
unfolding read_value read_text read_between
short_test = refl

read_value-write_value_example :
    read_value (write_value (between (show 0) (show 94))) ≡ some (between (show 0) (show 94))
read_value-write_value_example =
    read_value-write_value (between (show 0) (show 94)) (IsSimple-show 0, IsSimple-show 94)
