-- ===== src/Strings/Separated.antt =====
-- Split, Count and Replace of utils/string_helper.h with a string.
