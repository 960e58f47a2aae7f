-- ===== src/Download/Fetch.antt =====
-- The header and the file of a response, from one socket.
