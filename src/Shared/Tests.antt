-- ===== src/Shared/Tests.antt =====
-- The numbers of one constant.
use luwes.Base.{◌≡◌}
use luwes.Shared.Attribute.{AttributeId}
use luwes.Shared.Agreement.{attribute_id, abi_number, go_number, numbers_agree}

numbers_agree_example :
    abi_number (attribute_id AttributeId.upstream_port)
    ≡ go_number (attribute_id AttributeId.upstream_port)
numbers_agree_example = numbers_agree (attribute_id AttributeId.upstream_port)
