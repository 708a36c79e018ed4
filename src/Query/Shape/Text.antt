-- ===== src/Query/Shape/Text.antt =====
-- The text of a query depends on the shape of its values only.
use gorm.Query.Builder.{Builder}
